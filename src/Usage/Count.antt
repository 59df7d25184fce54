-- ===== src/Usage/Count.antt =====
-- Requests that arrive one after the other, in any order and from any users, on one day: each makes
-- the reservation of crates/central/src/usage.rs, and some are released.
use oidc_agent_compat.Prelude.{
  ℕ, suc, String, ◌==◌, ◌≡◌, refl, ◌⊎◌, inl, inr, Bool, true, false, ◌&&◌, Option, List, [], ◌∷◌,
  All, arith, eq_iff, eq_refl, find-update-none, if◌then◌else◌, find, find-update, find_sound,
  Option-cases,
}
use oidc_agent_compat.Prelude.Int.{ℤ, pos, ◌+ℤ◌, ◌-ℤ◌, ◌≤ℤ◌, ltb_ℤ}
use oidc_agent_compat.Error.{ok}
use oidc_agent_compat.World.{World}
use oidc_agent_compat.World.Cases.{with_faults, write-Ends}
use oidc_agent_compat.Usage.{
  is_current, release_one, released, try_reserve_request, release_request,
}
use oidc_agent_compat.Usage.Reserve.{requests, granted, try_reserve_request_lem}

pub record Attempt : Type 0 where
  pub user_subject : String
  pub groups : Option String
  pub quota : ℤ

-- the number of attempts of the user that are granted, and the world after all attempts
pub attempt_all : String → List Attempt → World → ℕ × World
attempt_all u [] w = (0, w)
attempt_all u (a ∷ more) w =
    let (r, v) = try_reserve_request a.user_subject a.groups a.quota w in
    let (n, z) = attempt_all u more v in
    ((if granted r && a.user_subject == u then suc n else n), z)

-- one attempt before `n` granted ones
count_step :
    (c : Bool) (before mid final q : ℤ) (n : ℕ)
    → mid ≡ (if c then before +ℤ pos 1 else before)
    → (c ≡ true → mid ≤ℤ q)
    → (final ≡ mid +ℤ pos n) × ((n ≡ 0) ⊎ (final ≤ℤ q))
    → let m : ℕ = if c then suc n else n in (final ≡ before +ℤ pos m) × ((m ≡ 0) ⊎ (final ≤ℤ q))
count_step true before mid final q n h b t = (ground arith, inr (ground arith))
count_step false before mid final q n h b t = (ground arith, ground arith)

-- a granted attempt of the user itself is bounded by the user's quota
granted_bound :
    (s u : String) (b : Bool) (v : World) (quota q : ℤ)
    → ((s == u) ≡ true → quota ≡ q)
    → (b ≡ true → requests s v ≤ℤ quota)
    → (b && s == u) ≡ true
    → requests u v ≤ℤ q
granted_bound s u b v quota q same bounded h =
    let here : (s == u) ≡ true = ground arith in
    let grant : b ≡ true = ground arith in rw (← (eq_iff s u).0 here, ← same here) (bounded grant)

-- Whatever other users do and whatever the database answers, every granted attempt of a user is
-- counted, and if any is granted the count is then at most the user's quota.
pub attempt_all-le-quota :
    (u : String) (q : ℤ) (attempts : List Attempt) (w : World)
    → All (λ a. (a.user_subject == u) ≡ true → a.quota ≡ q) attempts
    → let (n, v) = attempt_all u attempts w in
      (requests u v ≡ requests u w +ℤ pos n) × ((n ≡ 0) ⊎ (requests u v ≤ℤ q))
unfolding attempt_all
attempt_all-le-quota u q [] w h = (ground arith, inl refl)
attempt_all-le-quota u q (a ∷ more) w h =
    let s = a.user_subject in
    let (r, v) = try_reserve_request s a.groups a.quota w in
    let (counted, bounded) = try_reserve_request_lem s a.groups a.quota w u in
    count_step (granted r && s == u) (requests u w) (requests u v) _ q _ counted
      (granted_bound s u (granted r) v a.quota q h.0 bounded) (attempt_all-le-quota u q more v h.1)

pub requests-released :
    (s : String) (w : World)
    → requests s (released s w)
      ≡ (if ltb_ℤ (pos 0) (requests s w) then requests s w -ℤ pos 1 else requests s w)
requests-released s w = elim (Option-cases (find (is_current s w) w.usage_counters)) [
  | inl e ↦
      let absent =
        find-update-none (is_current s w) (λ r. is_current s w r && ltb_ℤ (pos 0) r.request_count)
          release_one (λ r. refl) w.usage_counters e in
      ground arith
  | inr (r, e) ↦
      let current = find_sound (is_current s w) w.usage_counters e in
      let found =
        find-update (is_current s w) (λ r. is_current s w r && ltb_ℤ (pos 0) r.request_count)
          release_one (λ r. refl) w.usage_counters e in
      ground arith
]

-- What a release that the database carries out does to the user's own count.
requests-release_request :
    (s : String) (w : World)
    → (release_request s w).0 ≡ ok tt
    → requests s (release_request s w).1
      ≡ (if ltb_ℤ (pos 0) (requests s w) then requests s w -ℤ pos 1 else requests s w)
unfolding release_request
requests-release_request s w done =
    let (fs, ends) = write-Ends (released s) "release usage request" w in
    elim ends [
      | inl (r, after) ↦ rw after (requests-released s (with_faults w fs))
      | inr (e, r, after) ↦ let bad = rw r at done in cc bad
    ]

-- A reservation that is released again leaves the user's count as it was.
pub release-reserve :
    (s : String) (g : Option String) (q : ℤ) (w : World)
    → pos 0 ≤ℤ requests s w
    → granted (try_reserve_request s g q w).0 ≡ true
    → (release_request s (try_reserve_request s g q w).1).0 ≡ ok tt
    → requests s (release_request s (try_reserve_request s g q w).1).1 ≡ requests s w
release-reserve s g q w h grant done =
    let counted = (try_reserve_request_lem s g q w s).0 in
    let released = requests-release_request s (try_reserve_request s g q w).1 done in
    ground (arith, eq_refl s)
