-- ===== src/Usage/Increment.antt =====
-- What `increment` of crates/central/src/usage.rs adds to the counters of the day.
use oidc_agent_compat.Prelude.{
  ℕ, suc, String, ◌==◌, eq_refl, ◌≡◌, refl, sym, ◌∙◌, ap, Bool, true, false, Option, none, some,
  List, [], ◌∷◌, any, find, find_sound, find-update, find-update_other, find-concat,
  find-concat_other, arith, Option-cases, Bool-cases, inl, inr,
}
use oidc_agent_compat.Prelude.Int.{ℤ, pos, negsuc, ◌+ℤ◌}
use oidc_agent_compat.Error.{ok}
use oidc_agent_compat.Entity.{UsageCounter}
use oidc_agent_compat.External.{External}
use oidc_agent_compat.World.{World, ◌>>=◌, new_v4}
use oidc_agent_compat.World.Cases.{with_faults, write-Ends}
use oidc_agent_compat.Usage.{is_current, new_counter, upsert, increment}
use oidc_agent_compat.Usage.Reserve.{count_of, requests, is_current_other, is_current-new_counter}

abbrev tokens_of : Option UsageCounter → ℤ
tokens_of none = pos 0
tokens_of (some r) = r.token_count

-- the tokens that are counted for a user today
abbrev pub tokens_used : String → World → ℤ
tokens_used u w = tokens_of (find (is_current u w) w.usage_counters)

zero_add : (d : ℤ) → pos 0 +ℤ d ≡ d
zero_add (pos n) = ground arith
zero_add (negsuc n) = ground arith

module _ {ℓ} {A : Type ℓ} (p : A → Bool) where
  any-find-none : (xs : List A) → find p xs ≡ none → any p xs ≡ false
  any-find-none [] h = refl
  any-find-none (a ∷ xs) h = ground (arith, any-find-none xs)

  any_found : (xs : List A) {a : A} → find p xs ≡ some a → any p xs ≡ true
  any_found [] h = cc h
  any_found (b ∷ xs) {a} h = ground (arith, any_found xs {a = a})

module _ (s id : String) (g : Option String) (requested used : ℤ)
    (change : UsageCounter → UsageCounter) (cost : ℕ) (w : World)
    (keeps : (u : String) (r : UsageCounter) → is_current u w (change r) ≡ is_current u w r)
    (counts : (r : UsageCounter) → (change r).request_count ≡ r.request_count +ℤ requested)
    (uses : (r : UsageCounter) → (change r).token_count ≡ r.token_count +ℤ used) where
  abbrev after : World
  after = upsert (is_current s w) change (new_counter id s g w requested used cost) w

  abbrev fresh : UsageCounter
  fresh = new_counter id s g w requested used cost

  upsert_self :
      (requests s after ≡ requests s w +ℤ requested)
      × (tokens_used s after ≡ tokens_used s w +ℤ used)
  upsert_self = elim (Option-cases (find (is_current s w) w.usage_counters)) [
    | inl missing ↦
        let here = any-find-none (is_current s w) w.usage_counters missing in
        let mine = is_current-new_counter s s id g w requested used cost ∙ eq_refl s in
        let found = find-concat (is_current s w) w.usage_counters fresh missing mine in
        let made : requests s after ≡ requests s w +ℤ requested =
          rw (here, found, missing) (sym (zero_add requested)) in
        let spent : tokens_used s after ≡ tokens_used s w +ℤ used =
          rw (here, found, missing) (sym (zero_add used)) in
        (made, spent)
    | inr (r, present) ↦
        let here = any_found (is_current s w) w.usage_counters present in
        let current = find_sound (is_current s w) w.usage_counters present in
        let found =
          find-update (is_current s w) (is_current s w) change (keeps s) w.usage_counters present in
        let changed = rw current at found in
        let made : requests s after ≡ requests s w +ℤ requested =
          rw (here, changed, present) (counts r) in
        let spent : tokens_used s after ≡ tokens_used s w +ℤ used =
          rw (here, changed, present) (uses r) in
        (made, spent)
  ]

  upsert-other : (u : String) → (s == u) ≡ false → requests u after ≡ requests u w
  upsert-other u ne = elim (Bool-cases (any (is_current s w) w.usage_counters)) [
    | inl here ↦ rw here (
        ap count_of (
          find-update_other (is_current u w) (is_current s w) change w.usage_counters (keeps u)
            (λ r. is_current_other u s w r ne)))
    | inr absent ↦ rw absent (
        ap count_of (
          find-concat_other (is_current u w) w.usage_counters fresh
            (is_current-new_counter u s id g w requested used cost ∙ ne)))
  ]

-- An increment that the database carries out adds the given requests and tokens to the user's
-- counters of the day, which start from zero, and leaves the other users' requests alone.
pub increment_lem :
    (x : External) (s other : String) (g : Option String) (requested used : ℤ) (cost : ℕ)
    (w : World)
    → (increment x s g requested used cost w).0 ≡ ok tt
    → (s == other) ≡ false
    → let v = (increment x s g requested used cost w).1 in
      (requests s v ≡ requests s w +ℤ requested)
      × (tokens_used s v ≡ tokens_used s w +ℤ used)
      × (requests other v ≡ requests other w)
unfolding increment ◌>>=◌ new_v4
increment_lem x s other g requested used cost w done ne =
    let u = record w { drawn = suc w.drawn } in
    let id = w.uuids w.drawn in
    let change : UsageCounter → UsageCounter = λ r. record r {
      group_name = g;
      request_count = r.request_count +ℤ requested;
      token_count = r.token_count +ℤ used;
      cost_usd = x.add_cost r.cost_usd (x.as_f32 cost);
    } in
    let (fs, ends) =
      write-Ends
        (λ v.
          upsert (is_current s v) change (new_counter id s g v requested used (x.as_f32 cost)) v)
        "usage increment" u in
    elim ends [
      | inl (r, after) ↦
          let v = with_faults u fs in
          let (made, spent) =
            upsert_self s id g requested used change (x.as_f32 cost) v (λ n r. refl) (λ r. refl)
              (λ r. refl) in
          let others =
            upsert-other s id g requested used change (x.as_f32 cost) v (λ n r. refl) (λ r. refl)
              (λ r. refl) other ne in
          (rw after made, rw after spent, rw after others)
      | inr (e, r, after) ↦ let bad = rw r at done in cc bad
    ]
