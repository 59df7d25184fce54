-- ===== src/Optimizer/Messages/Kept.antt =====
-- Which messages the first pass of crates/central/src/optimizer.rs keeps.
use mathlib.Core.List.{Sublist}
use mathlib.Core.List.Sublist
use oidc_agent_compat.Prelude.{
  ◌+◌, String, ◌==◌, Bool, true, false, ◌||◌, ◌&&◌, not, ◌≡◌, refl, inl, inr, List, [], ◌∷◌, All,
  All-map, any, length, Option, none, some, arith, Bool-cases, eq_refl,
}
use oidc_agent_compat.External.{External, Json}
use oidc_agent_compat.Optimizer.{OptimizationReport}
use oidc_agent_compat.Optimizer.Messages.{
  Progress, push, is_empty_content, Verdict, empty_content, duplicate, retained, judge,
  drop_repeated, count_empty, count_duplicate, Verdict-cases,
}

-- no message is empty, and no two have the same text or one of the `seen` ones
unfoldable pub is_clean : External → List String → List Json → Bool
is_clean x seen [] = true
is_clean x seen (m ∷ ms) =
    not (is_empty_content m)
    && (not (any (λ s. s == x.print_json m) seen) && is_clean x (x.print_json m ∷ seen) ms)

abbrev pub is_repeat : External → Option String → Json → Bool
is_repeat x none m = false
is_repeat x (some before) m = before == x.print_json m

-- no message is empty or has the text of the one directly before it
unfoldable pub is_tidy : External → (before : Option String) → List Json → Bool
is_tidy x before [] = true
is_tidy x before (m ∷ ms) =
    not (is_empty_content m) && (not (is_repeat x before m) && is_tidy x (some (x.print_json m)) ms)

tidy_later :
    (x : External) (before : String) (seen : List String) (ms : List Json)
    → is_clean x (before ∷ seen) ms ≡ true
    → is_tidy x (some before) ms ≡ true
unfolding is_clean is_tidy
tidy_later x before seen [] h = refl
tidy_later x before seen (m ∷ ms) h =
    let rest = tidy_later x (x.print_json m) (before ∷ seen) ms in ground (arith, rest)

is_tidy-is_clean :
    (x : External) (ms : List Json) → is_clean x [] ms ≡ true → is_tidy x none ms ≡ true
unfolding is_clean is_tidy
is_tidy-is_clean x [] h = refl
is_tidy-is_clean x (m ∷ ms) h =
    let rest = tidy_later x (x.print_json m) [] ms in ground (arith, rest)

-- a message with this text is in the list
abbrev pub has_text : External → String → List Json → Bool
has_text x text ms = any (λ k. x.print_json k == text) ms

-- what the verdict says of the message
abbrev Means : External → List String → Json → Verdict → Type 0
Means x dedup m empty_content = is_empty_content m ≡ true
Means x dedup m duplicate = any (λ s. s == x.print_json m) dedup ≡ true
Means x dedup m retained =
    (is_empty_content m ≡ false) × (any (λ s. s == x.print_json m) dedup ≡ false)

judge-Means : (x : External) (dedup : List String) (m : Json) → Means x dedup m (judge x dedup m)
unfolding judge
judge-Means x dedup m = elim (Bool-cases (is_empty_content m)) [
  | inl e ↦ rw (judge, e) e
  | inr e ↦ elim (Bool-cases (any (λ s. s == x.print_json m) dedup)) [
    | inl d ↦ rw (judge, e, d) d
    | inr d ↦ rw (judge, e, d) (e, d)
  ]
]

-- induction on the messages, by the verdict on the first
module _ (x : External) (P : List String → List Json → OptimizationReport → Progress → Type 0) where
  drop_repeated_ind :
      ((dedup : List String) (r : OptimizationReport) (changed : Bool)
        → P dedup [] r (record { messages = []; report = r; changed = changed }))
      → ((dedup : List String) (m : Json) (ms : List Json) (r : OptimizationReport) (p : Progress)
          → is_empty_content m ≡ true
          → P dedup ms (count_empty r) p
          → P dedup (m ∷ ms) r p)
      → ((dedup : List String) (m : Json) (ms : List Json) (r : OptimizationReport) (p : Progress)
          → any (λ s. s == x.print_json m) dedup ≡ true
          → P dedup ms (count_duplicate r) p
          → P dedup (m ∷ ms) r p)
      → ((dedup : List String) (m : Json) (ms : List Json) (r : OptimizationReport) (p : Progress)
          → is_empty_content m ≡ false
          → any (λ s. s == x.print_json m) dedup ≡ false
          → P (x.print_json m ∷ dedup) ms r p
          → P dedup (m ∷ ms) r (push m p))
      → (dedup : List String) (ms : List Json) (r : OptimizationReport) (changed : Bool)
      → P dedup ms r (drop_repeated x dedup ms r changed)
  unfolding drop_repeated
  drop_repeated_ind nothing empty repeated kept dedup [] r changed = nothing dedup r changed
  drop_repeated_ind nothing empty repeated kept dedup (m ∷ ms) r changed =
      let means = judge-Means x dedup m in
      elim (Verdict-cases (judge x dedup m)) [
        | inl e ↦
            let blank : is_empty_content m ≡ true = rw e at means in
            rw (drop_repeated, e)
              (empty dedup m ms r (drop_repeated x dedup ms (count_empty r) true) blank
                (drop_repeated_ind nothing empty repeated kept dedup ms (count_empty r) true))
        | inr (inl e) ↦
            let known : any (λ s. s == x.print_json m) dedup ≡ true = rw e at means in
            rw (drop_repeated, e)
              (repeated dedup m ms r (drop_repeated x dedup ms (count_duplicate r) true) known
                (drop_repeated_ind nothing empty repeated kept dedup ms (count_duplicate r) true))
        | inr (inr e) ↦
            let fresh : (is_empty_content m ≡ false)
                × (any (λ s. s == x.print_json m) dedup ≡ false) =
              rw e at means in
            rw (drop_repeated, e)
              (kept dedup m ms r (drop_repeated x (x.print_json m ∷ dedup) ms r changed) fresh.0
                fresh.1
                (drop_repeated_ind nothing empty repeated kept (x.print_json m ∷ dedup) ms r
                  changed))
      ]

shuffle : (a b c d : Bool) → (a || ((b || c) || d)) ≡ true → (a || (c || (b || d))) ≡ true
shuffle a b c d h = ground arith

-- what is said of the messages that are kept
abbrev Keeps : External → List String → List Json → OptimizationReport → Progress → Type 0
Keeps x dedup ms r p =
    (is_clean x dedup p.messages ≡ true)
    × All
        (λ m.
          (is_empty_content m
            || (any (λ s. s == x.print_json m) dedup || has_text x (x.print_json m) p.messages))
          ≡ true)
        ms
    × Sublist p.messages ms
    × (length p.messages + (p.report.dup_messages_dropped + p.report.empty_messages_dropped)
        ≡ length ms + (r.dup_messages_dropped + r.empty_messages_dropped))

drop_repeated-Keeps :
    (x : External) (dedup : List String) (ms : List Json) (r : OptimizationReport) (changed : Bool)
    → Keeps x dedup ms r (drop_repeated x dedup ms r changed)
unfolding push is_clean
drop_repeated-Keeps x =
    drop_repeated_ind x (Keeps x) (λ dedup r changed. (refl, tt, Sublist.refl [], refl))
      (λ dedup m ms r p blank (clean, all, sub, count).
        (clean, (rw blank refl, all), Sublist.cons m sub, omega arith))
      (λ dedup m ms r p known (clean, all, sub, count).
        (clean, (ground arith, all), Sublist.cons m sub, omega arith))
      (λ dedup m ms r p filled fresh (clean, all, sub, count). (
        ground arith,
        (
          ground (arith, eq_refl (x.print_json m)),
          All-map
              (λ k.
                shuffle (is_empty_content k) (x.print_json m == x.print_json k)
                  (any (λ s. s == x.print_json k) dedup) (has_text x (x.print_json k) p.messages))
              ms all,
        ),
        Sublist.cons-cons m sub,
        omega arith,
      ))

-- Pass 1 keeps messages of the request in their order, none of them empty and none with the text of
-- the one kept directly before it; each message that is not empty has its text among them; and each message is kept or counted
-- in the report, as empty or as a duplicate.
pub drop_repeated_lem :
    (x : External) (ms : List Json) (r : OptimizationReport) (changed : Bool)
    → let p = drop_repeated x [] ms r changed in
      (is_tidy x none p.messages ≡ true)
      × All (λ m. (is_empty_content m || has_text x (x.print_json m) p.messages) ≡ true) ms
      × Sublist p.messages ms
      × (length p.messages + (p.report.dup_messages_dropped + p.report.empty_messages_dropped)
          ≡ length ms + (r.dup_messages_dropped + r.empty_messages_dropped))
drop_repeated_lem x ms r changed =
    let (clean, all, sub, count) = drop_repeated-Keeps x [] ms r changed in
    (is_tidy-is_clean x (drop_repeated x [] ms r changed).messages clean, all, sub, count)
