-- ===== src/Proxy/Permissions/Deny.antt =====
-- How `permissions_middleware` of crates/central/src/proxy/permissions.rs refuses a request.
use oidc_agent_compat.Prelude.{
  ltb, Bool-cases, inl, inr, ℕ, ◌+◌, ◌-◌, ◌*◌, ◌/◌, ◌≤◌, ◌<◌, String, ◌≡◌, refl, Bool, true, Option,
  [], ◌∷◌, ◌++◌, arith, leb, max, ◌⊎◌,
}
use oidc_agent_compat.Error.{Result, ok, err}
use oidc_agent_compat.World.{World, ◌>>=◌, attempt, now_utc, new_v4, write, format_time, second}
use oidc_agent_compat.World.Cases.{with_faults}
use oidc_agent_compat.Audit.{record_entry}
use oidc_agent_compat.Proxy.Http.{VerifiedRelayIdentity, Response}
use oidc_agent_compat.Proxy.Permissions.{
  day, last_date, seconds_until_midnight_utc, denied_entry, deny,
}

-- a response with the status of a client's or a server's error
abbrev pub refuses : Result ℕ Response → Bool
refuses (ok response) = leb 400 response.status
refuses (err status) = leb 400 status

-- The wait that a refusal for a quota announces is between one second and a day, and ends less
-- than a second before or at the next midnight, or is one second within the last one. On the last
-- date, which has no next midnight, it is one second.
pub seconds_until_midnight_utc_lem :
    (now : ℕ)
    → let wait = seconds_until_midnight_utc now in
      let midnight = (now / day + 1) * day in
      (1 ≤ wait)
      × (wait ≤ 86_400)
      × (midnight < now + (wait + 1) * second ⊎ (last_date ≤ now / day) × (wait ≡ 1))
      × (now + wait * second ≤ midnight ⊎ wait ≡ 1)
unfolding seconds_until_midnight_utc
seconds_until_midnight_utc_lem now = elim (Bool-cases (ltb (now / day) last_date)) [
  | inl h ↦
      let midnight = (now / day + 1) * day in
      let whole = (midnight - now) / second in
      let first : 1 ≤ max whole 1 = omega arith in
      let last : max whole 1 ≤ 86_400 = omega arith in
      let late : midnight < now + (max whole 1 + 1) * second = omega arith in
      let early : now + max whole 1 * second ≤ midnight ⊎ max whole 1 ≡ 1 = ground arith in
      rw h (first, last, inl late, early)
  | inr h ↦
      let whole = (now / day * day - now) / second in
      let single : max whole 1 ≡ 1 = omega arith in
      let date : last_date ≤ now / day = ground arith in
      rw (h, single) (omega arith, omega arith, inr (date, refl), inr refl)
]

-- The denial entry of a request, and whether it says that the request was denied to the user.
module _ (identity : VerifiedRelayIdentity) (endpoint : String) (model : Option String)
    (reason : String) (status : ℕ) where
  pub deny-refuses :
      (w : World)
      → leb 400 status ≡ true
      → refuses (deny identity endpoint model reason status w).0 ≡ true
  unfolding deny ◌>>=◌ attempt now_utc
  deny-refuses w h = h

  pub deny-answered :
      (w : World)
      → (deny identity endpoint model reason status (with_faults w [])).1.audit_log
        ≡ w.audit_log
          ++ record {
            id = w.uuids w.drawn;
            created_at = w.now / second * second;
            entry = denied_entry identity endpoint model reason status;
          }
            ∷ []
  unfolding deny ◌>>=◌ attempt now_utc record_entry new_v4 write format_time
  deny-answered w = refl
