-- ===== src/Token.antt =====
-- crates/central/src/token_store.rs: minting, verifying, listing and revoking bearer tokens.
pub mod Mint
pub mod Verify
pub mod Revoke
use mathlib.Core.Option as Opt
use oidc_agent_compat.Prelude.{
  ℕ, ◌+◌, ◌-◌, ◌*◌, String, ◌==◌, Bool, true, false, not, ◌&&◌, Option, none, some, List, [], ◌∷◌,
  ◌++◌, any, select, discard, update, ltb, leb, if◌then◌else◌,
}
use oidc_agent_compat.Prelude.Int.{ℤ, pos, negsuc, ltb_ℤ}
use oidc_agent_compat.Error.{Error, Result}
use oidc_agent_compat.Entity.{Token}
use oidc_agent_compat.External.{External}
use oidc_agent_compat.World.{
  World, Exec, pure, ◌>>=◌, ◌>>◌, attempt, query, execute, write, now_utc, new_v4, format_time,
  second,
}
use oidc_agent_compat.Keys.{generate, from_hash_bytes, matches}

pub record MintRequest : Type 0 where
  pub subject : String
  pub issuer : String
  pub email : Option String
  pub display_name : Option String
  pub groups : Option String
  pub identity_id : Option String
  pub label : String
  pub expires_at : Option ℕ
  pub device_fingerprint : Option String

pub record MintedToken : Type 0 where
  pub plaintext : String
  pub token_id : String
  pub expires_at : Option ℕ

-- `TokenIdentity`, which is all that a `TokenVerification` holds
pub record TokenIdentity : Type 0 where
  pub token_id : String
  pub subject : String
  pub issuer : String
  pub email : Option String
  pub groups : Option String
  pub identity_id : Option String
  pub created_at : ℕ
  pub expires_at : Option ℕ
  pub device_fingerprint : Option String

-- the row that `mint_token` inserts
abbrev pub minted_row : External → MintRequest → (plaintext id : String) → ℕ → Token
minted_row x req plaintext id now = record {
  id = id;
  subject = req.subject;
  issuer = req.issuer;
  email = req.email;
  display_name = req.display_name;
  groups = req.groups;
  identity_id = req.identity_id;
  label = req.label;
  token_hash = x.sha256 plaintext;
  created_at = format_time now;
  expires_at = Opt.map format_time req.expires_at;
  last_used_at = none;
  revoked = false;
  device_fingerprint = req.device_fingerprint;
}

abbrev pub insert_token : Token → World → World
insert_token t w = record w { tokens = w.tokens ++ t ∷ [] }

unfoldable pub mint_token : External → MintRequest → Exec Error MintedToken
mint_token x req = do
  plaintext ← generate
  id ← new_v4
  now ← now_utc
  write "insert token" (insert_token (minted_row x req plaintext id now))
  pure (record { plaintext = plaintext; token_id = id; expires_at = req.expires_at })

abbrev pub has_id : String → Token → Bool
has_id id t = t.id == id

abbrev pub delete_rows : (Token → Bool) → World → World
delete_rows p w = record w { tokens = discard p w.tokens }

unfoldable pub delete_by_id : String → Exec Error (Unit {0})
delete_by_id id = write "delete token" (delete_rows (has_id id))

unfoldable pub touch_last_used : String → Exec Error (Unit {0})
touch_last_used id = do
  now ← now_utc
  write "touch last_used" (λ w. record w {
    tokens = update (has_id id) (λ t. record t { last_used_at = some (format_time now) }) w.tokens;
  })

-- `row_expires.is_some_and(|e| e <= now)`
abbrev pub is_expired : ℕ → Option ℕ → Bool
is_expired now none = false
is_expired now (some e) = leb e now

-- `!row_revoked && stored.matches(&candidate)`, where the stored hash has the right length
abbrev pub is_match : List ℕ → Token → Bool
is_match candidate row = elim (from_hash_bytes row.token_hash) [
  | none ↦ false
  | some stored ↦ not row.revoked && matches stored candidate
]

-- `else if matched_id.is_none()`
abbrev pub keep_first : Bool → Option Token → Token → Option Token
keep_first live (some t) row = some t
keep_first live none row = if live then some row else none

-- The loop of `verify_token` over the rows: the first live match, and the ids of the expired ones.
unfoldable pub scan :
    ℕ → List ℕ → Option Token → List String → List Token → Option Token × List String
unfolding from_hash_bytes
scan now candidate matched expired [] = (matched, expired)
scan now candidate matched expired (row ∷ rows) =
    let hit = is_match candidate row in
    let old = hit && is_expired now row.expires_at in
    scan now candidate (keep_first (hit && not old) matched row)
      (if old then expired ++ row.id ∷ [] else expired) rows

-- a failure to delete is logged
unfoldable pub delete_expired : List String → Exec Error (Unit {0})
delete_expired [] = pure tt
delete_expired (id ∷ ids) = do attempt {F = Error} (delete_by_id id); delete_expired ids

abbrev pub identity_of : Token → TokenIdentity
identity_of t = record {
  token_id = t.id;
  subject = t.subject;
  issuer = t.issuer;
  email = t.email;
  groups = t.groups;
  identity_id = t.identity_id;
  created_at = t.created_at;
  expires_at = t.expires_at;
  device_fingerprint = t.device_fingerprint;
}

unfoldable pub accept : Option Token → Exec Error (Option TokenIdentity)
accept none = pure none
accept (some t) = do attempt {F = Error} (touch_last_used t.id); pure (some (identity_of t))

abbrev pub rows_with_hash : List ℕ → World → List Token
rows_with_hash hash w = select (λ t. matches t.token_hash hash) w.tokens

unfoldable pub verify_token : External → String → Exec Error (Option TokenIdentity)
unfolding scan delete_expired accept
verify_token x plaintext = do
  let candidate = x.sha256 plaintext
  now ← now_utc
  rows ← query "query tokens" (rows_with_hash candidate)
  let (matched, expired) = scan now candidate none [] rows
  delete_expired expired
  accept matched

-- the loop of `revoke_by_token`: the last match
unfoldable pub revoke_target : List ℕ → Option String → List Token → Option String
unfolding from_hash_bytes
revoke_target candidate target [] = target
revoke_target candidate target (row ∷ rows) =
    revoke_target candidate
      (elim (from_hash_bytes row.token_hash) [
        | none ↦ target
        | some stored ↦ if matches stored candidate then some row.id else target
      ])
      rows

abbrev pub revoke_found : Option String → Exec Error Bool
revoke_found none = pure false
revoke_found (some id) = do delete_by_id id; pure true

unfoldable pub revoke_by_token : External → String → Exec Error Bool
unfolding revoke_target
revoke_by_token x plaintext = do
  let candidate = x.sha256 plaintext
  rows ← query "query tokens for revoke" (rows_with_hash candidate)
  revoke_found (revoke_target candidate none rows)

unfoldable pub list_for_subject : String → Exec Error (List Token)
list_for_subject subject = query "list tokens" (λ w. select (λ t. t.subject == subject) w.tokens)

unfoldable pub revoke_by_token_id : String → Exec Error (Unit {0})
unfolding delete_by_id
revoke_by_token_id id = delete_by_id id

abbrev pub owned_by : String → String → Token → Bool
owned_by id subject t = t.id == id && t.subject == subject

unfoldable pub revoke_by_token_id_for_subject : String → String → Exec Error Bool
revoke_by_token_id_for_subject id subject =
    execute "delete token"
      (λ w. (any (owned_by id subject) w.tokens, delete_rows (owned_by id subject) w))

-- `now - created_at > Duration::seconds(cap)`, with signed times
unfoldable pub check_backstop : ℕ → ℕ → Option ℤ → Bool
check_backstop now created_at none = false
check_backstop now created_at (some (pos cap)) = ltb (created_at + cap * second) now
check_backstop now created_at (some (negsuc n)) = ltb created_at (now + (n + 1) * second)
