-- ===== src/Optimizer/Messages.antt =====
-- crates/central/src/optimizer.rs: the passes over the messages that look at each message.
pub mod Kept
use Prim.Native.String.{[] as empty, ◌∷◌ as ◌+>◌, len}
use oidc_agent_compat.Prelude.{
  ℕ, zero, suc, ◌+◌, String, ◌==◌, Bool, true, false, ◌||◌, not, Option, none, some, List, [], ◌∷◌,
  ◌≡◌, refl, ◌⊎◌, inl, inr, any, eqb, if◌then◌else◌,
}
use oidc_agent_compat.Prelude.Text.{is_blank}
use oidc_agent_compat.External.{External, Json, string, object, Fields, end, field}
use oidc_agent_compat.Policy.Merge.{TokenSaverConfig}
use oidc_agent_compat.Optimizer.{OptimizationReport, text_at}
use oidc_agent_compat.Optimizer.Ansi.{strip_ansi_escapes}
use oidc_agent_compat.Optimizer.Lines.{collapse_repeated_lines}

-- The variables that the passes change: the array, the report and `changed`.
pub record Progress : Type 0 where
  pub messages : List Json
  pub report : OptimizationReport
  pub changed : Bool

-- `is_empty()` of a `Vec`
abbrev pub none_yet : List Json → Bool
none_yet [] = true
none_yet (_ ∷ _) = false

-- `retained.push(msg)`, for the messages that follow it
unfoldable pub push : Json → Progress → Progress
push message p = record p { messages = message ∷ p.messages }

-- `content.trim().is_empty()`, and `false` without a text
unfoldable pub blank_text : Option String → Bool
blank_text none = false
blank_text (some content) = is_blank content

unfoldable pub is_empty_content : Json → Bool
unfolding blank_text
is_empty_content message = blank_text (text_at "content" message)

-- what pass 1 does with a message, given the texts in `dedup`
pub data Verdict : Type 0 where
  empty_content : Verdict
  duplicate : Verdict
  retained : Verdict

pub Verdict-cases : (v : Verdict) → (v ≡ empty_content) ⊎ (v ≡ duplicate) ⊎ (v ≡ retained)
Verdict-cases empty_content = inl refl
Verdict-cases duplicate = inr (inl refl)
Verdict-cases retained = inr (inr refl)

unfoldable pub judge : External → List String → Json → Verdict
unfolding is_empty_content
judge x dedup message =
    if is_empty_content message
    then empty_content
    else if any (λ s. s == x.print_json message) dedup
    then duplicate
    else retained

abbrev pub count_empty : OptimizationReport → OptimizationReport
count_empty r = record r { empty_messages_dropped = suc r.empty_messages_dropped }

abbrev pub count_duplicate : OptimizationReport → OptimizationReport
count_duplicate r = record r { dup_messages_dropped = suc r.dup_messages_dropped }

-- pass 1
unfoldable pub drop_repeated :
    External → List String → List Json → OptimizationReport → Bool → Progress
unfolding judge push
drop_repeated x dedup [] report changed = record {
  messages = [];
  report = report;
  changed = changed;
}
drop_repeated x dedup (message ∷ more) report changed = elim (judge x dedup message) [
  | empty_content ↦ drop_repeated x dedup more (count_empty report) true
  | duplicate ↦ drop_repeated x dedup more (count_duplicate report) true
  | retained ↦ push message (drop_repeated x (x.print_json message ∷ dedup) more report changed)
]

-- the value under a key that the object has, overwritten
unfoldable pub set_field : String → Json → Fields → Fields
set_field key value end = end
set_field key value (field k v fs) =
    let rest = set_field key value fs in if k == key then field k value fs else field k v rest

-- `if let Some(slot) = value.get_mut(key) { *slot = new }`
unfoldable pub set : String → Json → Json → Json
unfolding set_field
set key value (object fs) = object (set_field key value fs)
set key value other = other

-- what pass 1.5 makes of a message with the content that `collapse_repeated_lines` returns
unfoldable pub write_collapsed : Json → String × ℕ → Json
unfolding set
write_collapsed message (collapsed, zero) = message
write_collapsed message (collapsed, suc removed) = set "content" (string collapsed) message

abbrev pub count_collapsed : ℕ → OptimizationReport → OptimizationReport
count_collapsed zero r = r
count_collapsed (suc n) r = record r {
  collapsed_lines = r.collapsed_lines + suc n;
  collapsed_messages = suc r.collapsed_messages;
}

abbrev pub is_positive : ℕ → Bool
is_positive zero = false
is_positive (suc n) = true

-- pass 1.5
unfoldable pub collapse_messages : List Json → OptimizationReport → Bool → Progress
unfolding push write_collapsed
collapse_messages [] report changed = record { messages = []; report = report; changed = changed }
collapse_messages (message ∷ more) report changed = elim (text_at "content" message) [
  | none ↦ push message (collapse_messages more report changed)
  | some content ↦
      let result = collapse_repeated_lines content in
      push (write_collapsed message result)
        (collapse_messages more (count_collapsed result.1 report) (changed || is_positive result.1))
]

-- what pass 1.6 finds in a content and its stripped form
pub data Stripped : Type 0 where
  without_codes : Stripped
  only_codes : Stripped
  some_codes : Stripped

pub Stripped-cases : (v : Stripped) → (v ≡ without_codes) ⊎ (v ≡ only_codes) ⊎ (v ≡ some_codes)
Stripped-cases without_codes = inl refl
Stripped-cases only_codes = inr (inl refl)
Stripped-cases some_codes = inr (inr refl)

unfoldable pub is_empty : String → Bool
is_empty empty = true
is_empty (c +> s) = false

unfoldable pub compare_stripped : String → String → Stripped
unfolding is_empty
compare_stripped content stripped =
    if eqb (len stripped) (len content)
    then without_codes
    else if is_empty stripped
    then only_codes
    else some_codes

abbrev pub count_stripped : OptimizationReport → OptimizationReport
count_stripped r = record r { ansi_stripped_messages = suc r.ansi_stripped_messages }

abbrev pub count_only_codes : OptimizationReport → OptimizationReport
count_only_codes r = record r {
  ansi_stripped_messages = suc r.ansi_stripped_messages;
  empty_messages_dropped = suc r.empty_messages_dropped;
}

-- pass 1.6
unfoldable pub strip_messages : List Json → OptimizationReport → Bool → Progress
unfolding push compare_stripped set
strip_messages [] report changed = record { messages = []; report = report; changed = changed }
strip_messages (message ∷ more) report changed = elim (text_at "content" message) [
  | none ↦ push message (strip_messages more report changed)
  | some content ↦
      let stripped = strip_ansi_escapes content in
      let written = set "content" (string stripped) message in
      elim (compare_stripped content stripped) [
        | without_codes ↦ push written (strip_messages more report changed)
        | only_codes ↦ strip_messages more (count_only_codes report) true
        | some_codes ↦ push written (strip_messages more (count_stripped report) true)
      ]
]

unfoldable pub collapse_if : Bool → Progress → Progress
unfolding collapse_messages
collapse_if true p = collapse_messages p.messages p.report p.changed
collapse_if false p = p

unfoldable pub strip_if : Bool → Progress → Progress
unfolding strip_messages
strip_if true p = strip_messages p.messages p.report p.changed
strip_if false p = p

-- passes 1, 1.5 and 1.6
unfoldable pub rewrite_messages :
    External → TokenSaverConfig → List Json → OptimizationReport → Progress
unfolding drop_repeated collapse_if strip_if
rewrite_messages x config messages report =
    strip_if config.strip_ansi
      (collapse_if config.collapse_repeated_lines (drop_repeated x [] messages report false))
