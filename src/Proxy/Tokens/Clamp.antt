-- ===== src/Proxy/Tokens/Clamp.antt =====
-- The lifetime of the tokens that crates/central/src/proxy/tokens.rs mints.
use mathlib.Core.Option as Opt
use oidc_agent_compat.Prelude.{
  ℕ, suc, ◌+◌, ◌-◌, ◌*◌, ◌/◌, ◌≤◌, String, ◌≡◌, refl, sym, ap, ◌∙◌, inl, inr, Option, none, some,
  [], ◌∷◌, ◌++◌, arith, Bool-cases, ltb,
}
use oidc_agent_compat.Prelude.Int.{ℤ, pos, negsuc, pos_part, min_ℤ}
use oidc_agent_compat.Error.{ok, ok-injective, Result-cases}
use oidc_agent_compat.External.{External}
use oidc_agent_compat.World.{World, lift, ◌>>=◌, now_utc, map_err, format_time, second}
use oidc_agent_compat.Entity.{Token}
use oidc_agent_compat.Token.{minted_row, mint_token}
use oidc_agent_compat.Token.Mint.{mint_token-stored, mint_token-expires_at}
use oidc_agent_compat.Proxy.Permissions.{groups_of}
use oidc_agent_compat.Proxy.Permissions.Forward.{policy_of, resolve_policy-Ends}
use oidc_agent_compat.World.Cases.{with_faults}
use oidc_agent_compat.Proxy.Tokens.{
  mint_until, mint_request, MintTokenRequest, MintTokenResponse, Owner, effective_ttl, add_seconds,
  expiry, mint_for, end_of_time,
}

abbrev EndsBy : ℕ → Option ℕ → Type 0
EndsBy limit t = (end : ℕ) × (t ≡ some end) × (end ≤ limit)

expiry-EndsBy :
    (now : ℕ) (ttl : ℤ) (cap : ℕ) {t : Option ℕ}
    → expiry now (some ttl) ≡ ok t
    → pos_part ttl ≤ cap
    → EndsBy (now + cap * second) t
unfolding expiry add_seconds
expiry-EndsBy now (pos n) cap h within = elim (Bool-cases (ltb (now + n * second) end_of_time)) [
  | inl soon ↦ (now + n * second, sym (ok-injective (rw soon at h)), omega arith)
  | inr late ↦ let bad = rw late at h in cc bad
]
expiry-EndsBy now (negsuc n) cap h within =
    (now - suc n * second, sym (ok-injective h), omega arith)

min_ℤ-within : (ttl : ℤ) (cap : ℕ) → pos_part (min_ℤ ttl (pos cap)) ≤ cap
min_ℤ-within ttl cap = ground arith

-- a cap bounds the expiry, whatever is requested
expiry-capped :
    (now : ℕ) (requested : Option ℤ) (cap : ℕ) {t : Option ℕ}
    → expiry now (effective_ttl requested (some (pos cap))) ≡ ok t
    → EndsBy (now + cap * second) t
unfolding effective_ttl
expiry-capped now none cap h = expiry-EndsBy now (pos cap) cap h (omega arith)
expiry-capped now (some ttl) cap h =
    expiry-EndsBy now (min_ℤ ttl (pos cap)) cap h (min_ℤ-within ttl cap)

module _ (x : External) (body : MintTokenRequest) (device : Option String) (who : Owner) where
  -- the new row, and the response that goes with it
  abbrev Stored : Option ℕ → World → MintTokenResponse → World → Type 0
  Stored until w m v =
      (row : Token) × (v.tokens ≡ w.tokens ++ row ∷ [])
      × (row.subject ≡ who.subject)
      × (row.groups ≡ who.groups)
      × (row.device_fingerprint ≡ device)
      × (row.expires_at ≡ m.expires_at)
      × (m.expires_at ≡ Opt.map format_time until)

  mint_until-Stored :
      (until : Option ℕ) (w : World) {m : MintTokenResponse}
      → (mint_until x body device who until w).0 ≡ ok m
      → Stored until w m (mint_until x body device who until w).1
  unfolding mint_until ◌>>=◌ map_err
  mint_until-Stored until w {m} done =
      let req = mint_request body who until device in
      elim (Result-cases (mint_token x req w).0) [
        | inl (minted, r) ↦
            let stored = mint_token-stored x req w r in
            let kept = mint_token-expires_at x req w r in
            let same = ok-injective (rw r at done) in
            let until_same =
              sym (ap (λ (n : MintTokenResponse). n.expires_at) same)
              ∙ ap (Opt.map format_time) kept in
            let rows : (mint_until x body device who until w).1.tokens
                ≡ w.tokens ++ minted_row x req minted.plaintext minted.token_id w.now ∷ [] =
              rw r stored in
            (
              minted_row x req minted.plaintext minted.token_id w.now,
              rows,
              refl,
              refl,
              refl,
              sym until_same,
              until_same,
            )
        | inr (e, r) ↦ let bad = rw r at done in cc bad
      ]

  -- the expiry of the row is the cut one of a time by the cap
  abbrev pub Capped : ℕ → World → MintTokenResponse → World → Type 0
  Capped limit w m v =
      (row : Token) × (v.tokens ≡ w.tokens ++ row ∷ [])
      × (row.subject ≡ who.subject)
      × (row.groups ≡ who.groups)
      × (row.device_fingerprint ≡ device)
      × (row.expires_at ≡ m.expires_at)
      × EndsBy limit m.expires_at

  cut_EndsBy : (limit : ℕ) (t : Option ℕ) → EndsBy limit t → EndsBy limit (Opt.map format_time t)
  unfolding format_time
  cut_EndsBy limit t (end, same, within) = (end / second * second, rw same refl, omega arith)

  mint_expiry-Capped :
      (requested : Option ℤ) (cap : ℕ) (w : World) {m : MintTokenResponse}
      → let run =
          (lift (expiry w.now (effective_ttl requested (some (pos cap))))
              >>= mint_until x body device who)
            w in
        run.0 ≡ ok m → Capped (w.now + cap * second) w m run.1
  unfolding ◌>>=◌
  mint_expiry-Capped requested cap w {m} done =
      let ttl = effective_ttl requested (some (pos cap)) in
      elim (Result-cases (expiry w.now ttl)) [
        | inl (until, e) ↦
            let (row, rows, subject, groups, bound, expires, cut) =
              mint_until-Stored until w (rw e at done) in
            let ends =
              cut_EndsBy (w.now + cap * second) until (expiry-capped w.now requested cap e) in
            rw e (row, rows, subject, groups, bound, expires, rw cut ends)
        | inr (e, failed) ↦ let bad = rw failed at done in cc bad
      ]

  -- Where the policy of the owner's groups caps the lifetime of tokens, a token that is minted, for
  -- whatever requested lifetime or for none, is stored for that owner with the expiry that the
  -- response names, which is no later than the cap from now; it is bound to the device that the
  -- request names, and to none if the request names none.
  pub mint_for_lem :
      (cap : ℕ) (w : World) {m : MintTokenResponse}
      → (policy_of x (groups_of x who.groups) w).max_token_ttl_seconds ≡ some (pos cap)
      → (mint_for x body device who w).0 ≡ ok m
      → Capped (w.now + cap * second) w m (mint_for x body device who w).1
  unfolding mint_for ◌>>=◌ map_err now_utc
  mint_for_lem cap w {m} capped done =
      let (fs, ends) = resolve_policy-Ends x (groups_of x who.groups) w in
      elim ends [
        | inl (r, after) ↦
            rw (r, after, capped)
              (mint_expiry-Capped body.ttl_seconds cap (with_faults w fs)
                (rw (r, after, capped) at done))
        | inr (e, r, after) ↦ let bad = rw r at done in cc bad
      ]
