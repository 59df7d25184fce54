-- ===== src/Token/Mint.antt =====
-- A minted token of crates/central/src/token_store.rs is accepted until it expires.
use mathlib.Core.Option as Opt
use oidc_agent_compat.Prelude.{
  ℕ, suc, ◌<>◌, ◌∙◌, [], String, ◌≡◌, refl, inl, inr, true, false, none, some, find, find-concat,
  arith, length,
}
use oidc_agent_compat.Error.{ok, ok-injective}
use oidc_agent_compat.External.{External}
use oidc_agent_compat.World.{World, ◌>>=◌, now_utc, new_v4, format_time}
use oidc_agent_compat.World.Cases.{with_faults, write-Ends}
use oidc_agent_compat.Keys.{key_prefix, generate, from_hash_bytes}
use oidc_agent_compat.Keys.Laws.{matches_refl}
use oidc_agent_compat.Token.{
  MintRequest, MintedToken, identity_of, minted_row, is_expired, mint_token, verify_token,
  insert_token,
}
use oidc_agent_compat.Token.Verify.{accepts, verify_token-answered}

-- the world in which a later request is served
abbrev pub later : ℕ → World → World
later now w = record w { now = now }

module _ (x : External) (req : MintRequest) (w : World) where
  -- what a successful call returns and stores
  pub mint_token-stored :
      {m : MintedToken}
      → (mint_token x req w).0 ≡ ok m
      → (mint_token x req w).1.tokens
        ≡ (insert_token (minted_row x req m.plaintext m.token_id w.now) w).tokens
  unfolding mint_token ◌>>=◌ now_utc new_v4 generate
  mint_token-stored {m} done =
      let v = record w { drawn = suc (suc w.drawn) } in
      let row = minted_row x req (key_prefix <> w.secrets w.drawn) (w.uuids (suc w.drawn)) w.now in
      let (fs, ends) = write-Ends (insert_token row) "insert token" v in
      elim ends [
        | inl (r, after) ↦ let same = ok-injective (rw r at done) in rw (r, after, ← same) refl
        | inr (e, r, after) ↦ let bad = rw r at done in cc bad
      ]

  pub mint_token-expires_at :
      {m : MintedToken} → (mint_token x req w).0 ≡ ok m → m.expires_at ≡ req.expires_at
  unfolding mint_token ◌>>=◌ now_utc new_v4 generate
  mint_token-expires_at {m} done =
      let v = record w { drawn = suc (suc w.drawn) } in
      let row = minted_row x req (key_prefix <> w.secrets w.drawn) (w.uuids (suc w.drawn)) w.now in
      let (fs, ends) = write-Ends (insert_token row) "insert token" v in
      elim ends [
        | inl (r, after) ↦ let same = ok-injective (rw r at done) in rw (← same) refl
        | inr (e, r, after) ↦ let bad = rw r at done in cc bad
      ]

  accepts-minted :
      (plaintext id : String) (now : ℕ)
      → length (x.sha256 plaintext) ≡ 32
      → is_expired now (Opt.map format_time req.expires_at) ≡ false
      → accepts x plaintext now (minted_row x req plaintext id w.now) ≡ true
  unfolding from_hash_bytes
  accepts-minted plaintext id now size live = ground (arith, matches_refl (x.sha256 plaintext))

  -- A token that was minted is accepted at any later time before its expiry, and stands for the
  -- identity that it was minted for, while the database answers and no other stored token has its
  -- hash; its expiry is the requested one, cut to whole seconds.
  pub verify-mint :
      {m : MintedToken} (now : ℕ)
      → (mint_token x req w).0 ≡ ok m
      → length (x.sha256 m.plaintext) ≡ 32
      → find (accepts x m.plaintext now) w.tokens ≡ none
      → is_expired now (Opt.map format_time req.expires_at) ≡ false
      → (verify_token x m.plaintext (with_faults (later now (mint_token x req w).1) [])).0
        ≡ ok (some (identity_of (minted_row x req m.plaintext m.token_id w.now)))
  verify-mint {m} now done size fresh live =
      let row = minted_row x req m.plaintext m.token_id w.now in
      let stored = mint_token-stored done in
      let found =
        find-concat (accepts x m.plaintext now) w.tokens row fresh
          (accepts-minted m.plaintext m.token_id now size live) in
      verify_token-answered x m.plaintext (later now (mint_token x req w).1)
      ∙ rw (stored, found) refl
