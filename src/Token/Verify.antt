-- ===== src/Token/Verify.antt =====
-- Which tokens `verify_token` of crates/central/src/token_store.rs accepts.
use mathlib.Core.Option as Opt
use oidc_agent_compat.Prelude.{
  ℕ, String, ◌<>◌, ◌≡◌, refl, ◌⊎◌, inl, inr, Bool, not, ◌&&◌, Option, none, some, List, [], ◌∷◌,
  find, select, arith, if◌then◌else◌, ◌∙◌, ap,
}
use oidc_agent_compat.Error.{Error, database, Result, ok, err}
use oidc_agent_compat.Entity.{Token}
use oidc_agent_compat.External.{External}
use oidc_agent_compat.World.{World, ◌>>=◌, ◌>>◌, attempt, query, now_utc}
use oidc_agent_compat.World.Cases.{with_faults, execute-Faulted, bind-ok}
use oidc_agent_compat.Keys.{matches}
use oidc_agent_compat.Token.{
  TokenIdentity, is_expired, is_match, keep_first, scan, delete_expired, accept, identity_of,
  rows_with_hash, verify_token,
}

-- A row that the store may accept for a hash: of the right length, equal, not revoked, not expired.
abbrev pub is_live : ℕ → List ℕ → Token → Bool
is_live now hash t = is_match hash t && not (is_expired now t.expires_at)

abbrev or_else : Option Token → Option Token → Option Token
or_else none o = o
or_else (some t) o = some t

or_else-keep_first :
    (hit old : Bool) (matched next : Option Token) (row : Token)
    → or_else (keep_first (hit && not (hit && old)) matched row) next
      ≡ or_else matched (if hit && not old then some row else next)
or_else-keep_first hit old none next row = ground arith
or_else-keep_first hit old (some t) next row = refl

-- The loop finds the first live row.
scan-eq-find :
    (now : ℕ) (hash : List ℕ) (matched : Option Token) (expired : List String) (rows : List Token)
    → (scan now hash matched expired rows).0 ≡ or_else matched (find (is_live now hash) rows)
unfolding scan
scan-eq-find now hash none expired [] = refl
scan-eq-find now hash (some t) expired [] = refl
scan-eq-find now hash matched expired (row ∷ rows) =
    scan-eq-find now hash
      (keep_first (is_match hash row && not (is_match hash row && is_expired now row.expires_at))
        matched row)
      _ rows
    ∙ or_else-keep_first (is_match hash row) (is_expired now row.expires_at) matched _ row

find-select {ℓ} :
    {A : Type ℓ} (p q : A → Bool) (xs : List A) → find q (select p xs) ≡ find (λ a. p a && q a) xs
find-select p q [] = refl
find-select p q (a ∷ xs) = ground (arith, find-select p q xs)

-- deleting what has expired never fails, and keeps the clock
delete_expired-ok : (ids : List String) (w : World) → (delete_expired ids w).0 ≡ ok tt
unfolding delete_expired ◌>>=◌ attempt
delete_expired-ok [] w = refl
delete_expired-ok (id ∷ ids) w = delete_expired-ok ids _

accept-ok : (t : Option Token) (w : World) → (accept t w).0 ≡ ok (Opt.map identity_of t)
unfolding accept ◌>>=◌ attempt
accept-ok none w = refl
accept-ok (some t) w = refl

verify_tail :
    (matched : Option Token) (expired : List String) (w : World)
    → ((delete_expired expired >> accept matched) w).0 ≡ ok (Opt.map identity_of matched)
verify_tail matched expired w =
    ap (λ (r : Result Error (Option TokenIdentity) × World). r.0)
      (bind-ok (delete_expired expired) _ w (delete_expired-ok expired w))
    ∙ accept-ok matched _

-- the tokens that a bearer may stand for
abbrev pub accepts : External → String → ℕ → Token → Bool
accepts x plaintext now t =
    matches t.token_hash (x.sha256 plaintext) && is_live now (x.sha256 plaintext) t

-- Verification gives the identity of the first stored token with the bearer's hash that is neither
-- revoked nor expired, or none if there is no such token; it is an error only if the first statement,
-- the query, fails, and then it is the error of the query. No failure of the deletions and updates
-- after it turns the answer into an error.
pub verify_token-eq-find :
    (x : External) (plaintext : String) (w : World)
    → ((verify_token x plaintext w).0
        ≡ ok (Opt.map identity_of (find (accepts x plaintext w.now) w.tokens)))
      ⊎ ((m : String) × (later : List (Option String)) × (w.faults ≡ some m ∷ later)
          × ((verify_token x plaintext w).0 ≡ err (database ("query tokens" <> ": " <> m))))
unfolding verify_token ◌>>=◌ now_utc query
verify_token-eq-find x plaintext w =
    let hash = x.sha256 plaintext in
    elim (execute-Faulted (λ v. (rows_with_hash hash v, v)) "query tokens" w) [
      | inl (fs, r, v) ↦ inl (
          rw (r, v)
            (verify_tail _ _ (with_faults w fs)
              ∙ ap (λ o. ok (Opt.map identity_of o))
                  (scan-eq-find w.now hash none [] (rows_with_hash hash w)
                    ∙ find-select (λ t. matches t.token_hash hash) (is_live w.now hash) w.tokens)))
      | inr (m, later, due, r) ↦ inr (m, later, due, rw r refl)
    ]

-- The same without the alternative, while the database answers.
pub verify_token-answered :
    (x : External) (plaintext : String) (w : World)
    → (verify_token x plaintext (with_faults w [])).0
      ≡ ok (Opt.map identity_of (find (accepts x plaintext w.now) w.tokens))
unfolding verify_token ◌>>=◌ now_utc query
verify_token-answered x plaintext w =
    let hash = x.sha256 plaintext in
    verify_tail _ _ (with_faults w [])
    ∙ ap (λ o. ok (Opt.map identity_of o))
        (scan-eq-find w.now hash none [] (rows_with_hash hash w)
          ∙ find-select (λ t. matches t.token_hash hash) (is_live w.now hash) w.tokens)
