-- ===== src/Usage/Reserve.antt =====
-- Reservations against the daily request quota, for `try_reserve_request` and `release_request` of
-- crates/central/src/usage.rs.
use oidc_agent_compat.Prelude.{
  ℕ, suc, String, ◌==◌, eq_iff, eq_refl, ◌≡◌, refl, Bool, true, false, ◌&&◌, Option, none, some,
  find, find_sound, find-update, find-update_other, find-concat, find-concat_other, arith,
  Option-cases, Bool-cases, inl, inr, ◌∙◌, if◌then◌else◌,
}
use oidc_agent_compat.Prelude.Int.{ℤ, pos, ◌+ℤ◌, ◌≤ℤ◌, leb_ℤ}
use oidc_agent_compat.Error.{Error, Result, ok, err}
use oidc_agent_compat.Entity.{UsageCounter}
use oidc_agent_compat.World.{World, ◌>>=◌, new_v4}
use oidc_agent_compat.World.Cases.{with_faults, execute-Ends}
use oidc_agent_compat.Usage.{
  period_daily, is_current, new_counter, reserve_one, reserve_row, try_reserve_request,
}

abbrev pub count_of : Option UsageCounter → ℤ
count_of none = pos 0
count_of (some r) = r.request_count

-- the requests that are counted for a user today
abbrev pub requests : String → World → ℤ
requests u w = count_of (find (is_current u w) w.usage_counters)

-- The rows of two users are different rows.
pub is_current_other :
    (u s : String) (w : World) (r : UsageCounter)
    → (s == u) ≡ false
    → is_current s w r ≡ true
    → is_current u w r ≡ false
is_current_other u s w r ne h =
    ground (arith, eq_iff r.user_subject s, eq_iff r.user_subject u, eq_iff s u)

pub is_current-new_counter :
    (u s id : String) (g : Option String) (w : World) (n m : ℤ) (c : ℕ)
    → is_current u w (new_counter id s g w n m c) ≡ (s == u)
is_current-new_counter u s id g w n m c = ground (arith, eq_refl period_daily)

module _ (s id : String) (g : Option String) (q : ℤ) (w : World) where
  reserve_row-now : (reserve_row id s g q w).1.now ≡ w.now
  reserve_row-now = ground arith

  -- one reservation that the database carries out counts one request, and only below the quota
  reserve_row_self :
      (requests s (reserve_row id s g q w).1
        ≡ (if (reserve_row id s g q w).0 then requests s w +ℤ pos 1 else requests s w))
      × ((reserve_row id s g q w).0 ≡ true → pos 1 ≤ℤ q → requests s w +ℤ pos 1 ≤ℤ q)
  reserve_row_self = elim (Option-cases (find (is_current s w) w.usage_counters)) [
    | inl e ↦
        let fresh = new_counter id s g w (pos 1) (pos 0) 0 in
        let mine = is_current-new_counter s s id g w (pos 1) (pos 0) 0 ∙ eq_refl s in
        let found = find-concat (is_current s w) w.usage_counters fresh e mine in
        (ground arith, ground arith)
    | inr (r, e) ↦
        let current = find_sound (is_current s w) w.usage_counters e in
        let found =
          find-update (is_current s w) (is_current s w) (reserve_one g) (λ r. refl) w.usage_counters
            e in
        (ground arith, ground arith)
  ]

  reserve_row-other :
      (u : String) → (s == u) ≡ false → requests u (reserve_row id s g q w).1 ≡ requests u w
  reserve_row-other u ne = ground (
    arith,
    is_current-new_counter u s id g w (pos 1) (pos 0) 0,
    find-concat_other (is_current u w) w.usage_counters (new_counter id s g w (pos 1) (pos 0) 0),
    find-update_other (is_current u w) (is_current s w) (reserve_one g) w.usage_counters (λ r. refl)
        (λ r. is_current_other u s w r ne),
  )

  Reserves : String → Bool → World → Type 0
  Reserves u b v =
      (requests u v ≡ (if b && s == u then requests u w +ℤ pos 1 else requests u w))
      × (b ≡ true → pos 1 ≤ℤ q → requests s v ≤ℤ q)

  reserve_row-Reserves :
      (u : String) → Reserves u (reserve_row id s g q w).0 (reserve_row id s g q w).1
  unfolding Reserves
  reserve_row-Reserves u = elim (Bool-cases (s == u)) [
    | inl e ↦ rw (← (eq_iff s u).0 e) (ground (arith, reserve_row_self, eq_refl s))
    | inr ne ↦ (ground (arith, reserve_row-other u ne), ground (arith, reserve_row_self))
  ]

abbrev pub granted : Result Error Bool → Bool
granted (ok b) = b
granted (err e) = false

-- One attempt, whatever the database answers, counts a request of its own user exactly if it is
-- granted, is granted only up to the quota, and leaves the counts of the other users alone.
pub try_reserve_request_lem :
    (s : String) (g : Option String) (q : ℤ) (w : World) (u : String)
    → let (r, v) = try_reserve_request s g q w in
      (requests u v ≡ (if granted r && s == u then requests u w +ℤ pos 1 else requests u w))
      × (granted r ≡ true → requests s v ≤ℤ q)
unfolding try_reserve_request ◌>>=◌ new_v4 Reserves
try_reserve_request_lem s g q w u =
    let v = record w { drawn = suc w.drawn } in
    let id = w.uuids w.drawn in
    let (fs, ends) = execute-Ends (reserve_row id s g q) "reserve usage request" v in
    elim (Bool-cases (leb_ℤ q (pos 0))) [
      | inl none_left ↦ rw none_left (refl, λ h. cc h)
      | inr some_left ↦ elim ends [
        | inl (r, after) ↦
            let (counted, bounded) = reserve_row-Reserves s id g q (with_faults v fs) u in
            rw (some_left, r, after) (counted, λ h. bounded h (ground arith))
        | inr (e, r, after) ↦ rw (some_left, r, after) (refl, λ h. cc h)
      ]
    ]
