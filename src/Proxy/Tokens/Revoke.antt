-- ===== src/Proxy/Tokens/Revoke.antt =====
-- Who may delete a token through crates/central/src/proxy/tokens.rs.
use mathlib.Core.Option as Opt
use oidc_agent_compat.Prelude.{
  ℕ, String, ◌≡◌, refl, sym, inl, inr, true, false, Option, none, some, find, any, Option-cases,
}
use oidc_agent_compat.Error.{Result, ok, ok-injective, Result-cases}
use oidc_agent_compat.Entity.{Token}
use oidc_agent_compat.External.{External}
use oidc_agent_compat.World.{World, ◌>>=◌, map_err}
use oidc_agent_compat.Token.{
  TokenIdentity, identity_of, owned_by, verify_token, revoke_by_token_id_for_subject,
}
use oidc_agent_compat.Token.Verify.{accepts, verify_token-eq-find}
use oidc_agent_compat.Token.Revoke.{revoke_for_subject-gone}
use oidc_agent_compat.Proxy.Http.{Request}
use oidc_agent_compat.Proxy.Auth.{bearer_of}
use oidc_agent_compat.Proxy.Tokens.{or_unauthorized, revocation_status, revoke_by_id_handler}

module _ (x : External) (request : Request) (id : String) where
  -- the end of the handler, for a user
  abbrev delete_own : TokenIdentity → World → Result ℕ ℕ × World
  delete_own identity =
      map_err (λ e. 500) (revoke_by_token_id_for_subject id identity.subject) >>= revocation_status

  delete_own_lem :
      (identity : TokenIdentity) (w : World) {status : ℕ}
      → (delete_own identity w).0 ≡ ok status
      → (status ≡ 204)
        × (any (owned_by id identity.subject) (delete_own identity w).1.tokens ≡ false)
  unfolding ◌>>=◌ map_err
  delete_own_lem identity w done =
      elim (Result-cases (revoke_by_token_id_for_subject id identity.subject w).0) [
        | inl (true, r) ↦
            let gone = revoke_for_subject-gone id identity.subject w r in
            (sym (ok-injective (rw r at done)), rw r gone)
        | inl (false, r) ↦ let bad = rw r at done in cc bad
        | inr (e, r) ↦ let bad = rw r at done in cc bad
      ]

  abbrev delete_verified : Option TokenIdentity → World → Result ℕ ℕ × World
  delete_verified found = or_unauthorized 401 found >>= delete_own

  abbrev pub Deleted : Option Token → ℕ → World → Type 0
  Deleted found status v =
      (t : Token) × (found ≡ some t)
      × (status ≡ 204)
      × (any (owned_by id t.subject) v.tokens ≡ false)

  delete_verified_lem :
      (found : Option Token) (w : World) {status : ℕ}
      → (delete_verified (Opt.map identity_of found) w).0 ≡ ok status
      → Deleted found status (delete_verified (Opt.map identity_of found) w).1
  unfolding ◌>>=◌
  delete_verified_lem none w done = cc done
  delete_verified_lem (some t) w done =
      let (answer, gone) = delete_own_lem (identity_of t) w done in (t, refl, answer, gone)

  -- The deletion of a token by its id succeeds only, with the status 204, for a bearer whose token
  -- the store accepts now, and then the bearer's user has no token with this id any more.
  pub revoke_by_id_handler_lem :
      (w : World) {status : ℕ}
      → (revoke_by_id_handler x request id w).0 ≡ ok status
      → (bearer : String) × (bearer_of request ≡ some bearer)
        × Deleted
            (find (accepts x bearer w.now) w.tokens)
            status
            (revoke_by_id_handler x request id w).1
  unfolding revoke_by_id_handler ◌>>=◌ map_err
  revoke_by_id_handler_lem w {status} done = elim (Option-cases (bearer_of request)) [
    | inl missing ↦ let bad = rw missing at done in cc bad
    | inr (bearer, given) ↦ elim (verify_token-eq-find x bearer w) [
      | inl answered ↦ (
        bearer,
        given,
        simp (given, answered)
            (delete_verified_lem (find (accepts x bearer w.now) w.tokens)
              (verify_token x bearer w).1 (simp (given, answered) at done)),
      )
      | inr (m, later, due, failed) ↦ let bad = simp (given, failed) at done in cc bad
    ]
  ]
