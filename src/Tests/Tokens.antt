-- ===== src/Tests/Tokens.antt =====
-- The laws of crates/central/src/token_store.rs and proxy/tokens.rs at concrete tokens.
use oidc_agent_compat.Prelude.{
  ◌*◌, String, ◌<>◌, Option, List, ◌∷◌, ◌≡◌, refl, ◌⊎◌, true, false, none, some, [], any, select,
  arith, ◌==◌,
}
use oidc_agent_compat.Error.{database, ok, err}
use oidc_agent_compat.World.{◌>>=◌, query, write, execute, now_utc, new_v4, second, format_time}
use oidc_agent_compat.World.Cases.{with_faults}
use oidc_agent_compat.Keys.{generate, from_hash_bytes, matches}
use oidc_agent_compat.Token.{
  identity_of, minted_row, verify_token, mint_token, revoke_by_token, revoke_target, owned_by,
  delete_by_id, revoke_by_token_id_for_subject,
}
use oidc_agent_compat.Token.Verify.{verify_token-eq-find}
use oidc_agent_compat.Token.Mint.{later, verify-mint}
use oidc_agent_compat.Token.Revoke.{verify-revoke_by_token, revoke_for_subject_lem}
use oidc_agent_compat.Tests.Data.{env, ann_token, central, mint}

verify_example :
    ((verify_token env "oac_abc" central).0 ≡ ok (some (identity_of ann_token)))
    ⊎ ((m : String) × (later : List (Option String)) × (central.faults ≡ some m ∷ later)
        × ((verify_token env "oac_abc" central).0 ≡ err (database ("query tokens" <> ": " <> m))))
unfolding from_hash_bytes matches
verify_example = verify_token-eq-find env "oac_abc" central

mint_example :
    (verify_token env "oac_new"
      (with_faults (later (1_000_050 * second) (mint_token env mint central).1) [])).0
    ≡ ok (some (identity_of (minted_row env mint "oac_new" "uuid" central.now)))
unfolding mint_token generate write execute ◌>>=◌ now_utc new_v4 matches from_hash_bytes format_time
mint_example = verify-mint env mint central (1_000_050 * second) refl refl refl refl

revoke_example :
    (verify_token env "oac_abc" (with_faults (revoke_by_token env "oac_abc" central).1 [])).0
    ≡ ok none
unfolding revoke_by_token revoke_target delete_by_id query write execute ◌>>=◌ matches
    from_hash_bytes
revoke_example = verify-revoke_by_token env "oac_abc" central refl (omega arith) refl

revoke_own_example :
    let v = (revoke_by_token_id_for_subject "t1" "ann" central).1 in
    (true ≡ any (owned_by "t1" "ann") central.tokens)
    × (any (owned_by "t1" "ann") v.tokens ≡ false)
    × (select (λ t. t.subject == "bob") v.tokens ≡ select (λ t. t.subject == "bob") central.tokens)
unfolding revoke_by_token_id_for_subject execute
revoke_own_example = revoke_for_subject_lem "t1" "ann" "bob" central refl refl
