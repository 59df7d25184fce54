-- ===== src/Optimizer.antt =====
-- crates/central/src/optimizer.rs: the report, and the estimate of tokens.
pub mod Ansi
pub mod Lines
pub mod Messages
pub mod Budget
pub mod Prompt
use Prim.Native.String.{count}
use oidc_agent_compat.Prelude.{
  ℕ, ◌+◌, ◌/◌, String, ◌<>◌, Bool, false, Option, none, some, List, [], ◌∷◌,
}
use oidc_agent_compat.External.{External, Json, Items, nil, cons}
use oidc_agent_compat.Json.{get, as_str}

pub record OptimizationReport : Type 0 where
  pub applied : Bool
  pub input_tokens_before : ℕ
  pub input_tokens_after : ℕ
  pub tokens_saved : ℕ
  pub dup_messages_dropped : ℕ
  pub budget_turns_dropped : ℕ
  pub empty_messages_dropped : ℕ
  pub collapsed_lines : ℕ
  pub collapsed_messages : ℕ
  pub ansi_stripped_messages : ℕ
  pub never_worse_reverted : Bool

-- `OptimizationReport::default()`
abbrev pub default_report : OptimizationReport
default_report = record {
  applied = false;
  input_tokens_before = 0;
  input_tokens_after = 0;
  tokens_saved = 0;
  dup_messages_dropped = 0;
  budget_turns_dropped = 0;
  empty_messages_dropped = 0;
  collapsed_lines = 0;
  collapsed_messages = 0;
  ansi_stripped_messages = 0;
  never_worse_reverted = false;
}

-- `CHARS_PER_TOKEN`
abbrev pub chars_per_token : ℕ
chars_per_token = 4

-- `chars.div_ceil(CHARS_PER_TOKEN)`; a text in memory has fewer than 2⁶⁴ characters
unfoldable pub estimate_tokens : String → ℕ
estimate_tokens text = (count text + 3) / chars_per_token

-- the text of one section, which is empty where the body lacks it
unfoldable pub section_text : External → Option Json → String
section_text x none = ""
section_text x (some section) = x.print_json section

unfoldable pub body_for_estimate : External → Json → String
unfolding section_text get
body_for_estimate x value =
    section_text x (get "messages" value) <> section_text x (get "tools" value)

-- a JSON array and the `Vec` of its values
unfoldable pub to_list : Items → List Json
to_list nil = []
to_list (cons v items) = v ∷ to_list items

unfoldable pub from_list : List Json → Items
from_list [] = nil
from_list (v ∷ vs) = cons v (from_list vs)

-- `msg.get(key).and_then(as_str)`
unfoldable pub text_at : String → Json → Option String
unfolding get as_str
text_at key message = elim (get key message) [ none ↦ none | some value ↦ as_str value ]
