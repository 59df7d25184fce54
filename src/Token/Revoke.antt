-- ===== src/Token/Revoke.antt =====
-- Revocation in crates/central/src/token_store.rs.
use oidc_agent_compat.Prelude.{
  ◌≤◌, String, ◌==◌, eq_iff, eq_refl, ◌≡◌, refl, sym, ap, inl, inr, Bool, true, false, Option, none,
  some, List, [], ◌∷◌, any, find, select, discard, count_if, count_if-find-none,
  select-count_if_zero, find_sound, select_unique, length, arith, ◌∙◌, Option-cases,
}
use oidc_agent_compat.Error.{ok, ok-injective}
use oidc_agent_compat.Entity.{Token}
use oidc_agent_compat.External.{External}
use oidc_agent_compat.World.{World, ◌>>=◌, query}
use oidc_agent_compat.World.Cases.{with_faults, execute-Ends, write-Ends}
use oidc_agent_compat.Keys.{matches}
use oidc_agent_compat.Keys.Laws.{matches_sound}
use oidc_agent_compat.Token.{
  has_id, owned_by, delete_rows, delete_by_id, rows_with_hash, revoke_target, revoke_found,
  revoke_by_token, revoke_by_token_id_for_subject, verify_token,
}
use oidc_agent_compat.Token.Verify.{accepts, verify_token-answered}

module _ {ℓ} {A : Type ℓ} (p q : A → Bool) where
  select-discard_other :
      (xs : List A) → ((a : A) → p a ≡ true → q a ≡ false) → select p (discard q xs) ≡ select p xs
  select-discard_other [] h = refl
  select-discard_other (y ∷ xs) h = ground (arith, h y, select-discard_other xs h)

  find-none-discard : (xs : List A) → find p xs ≡ none → find p (discard q xs) ≡ none
  find-none-discard [] h = refl
  find-none-discard (y ∷ xs) h = ground (arith, find-none-discard xs)

  find-none_of_count : (xs : List A) → count_if p xs ≡ 0 → find p xs ≡ none
  find-none_of_count [] h = refl
  find-none_of_count (y ∷ xs) h = ground (arith, find-none_of_count xs)

  -- a deletion that takes the only row with a property leaves none
  find-discard_unique :
      (xs : List A) {a : A}
      → count_if p xs ≤ 1
      → find p xs ≡ some a
      → q a ≡ true
      → find p (discard q xs) ≡ none
  find-discard_unique [] h found k = refl
  find-discard_unique (y ∷ xs) {a} h found k =
      ground (arith, find-none-discard xs, find-none_of_count xs, find-discard_unique xs {a = a})

  find-weaker :
      (xs : List A) → ((a : A) → q a ≡ true → p a ≡ true) → find p xs ≡ none → find q xs ≡ none
  find-weaker [] h none_there = refl
  find-weaker (y ∷ xs) h none_there = ground (arith, h y, find-weaker xs h)

any-discard {ℓ} : {A : Type ℓ} (p : A → Bool) (xs : List A) → any p (discard p xs) ≡ false
any-discard p [] = refl
any-discard p (y ∷ xs) = ground (arith, any-discard p xs)

other_owner :
    (id subject other : String)
    → (subject == other) ≡ false
    → (t : Token) → (t.subject == other) ≡ true
    → owned_by id subject t ≡ false
other_owner id subject other ne t k =
    ground (arith, eq_iff t.subject other, eq_iff t.subject subject, eq_iff subject other)

revoke_for_subject_run :
    (id subject other : String) (w : World) (fs : List (Option String)) (done : Bool)
    → any (owned_by id subject) w.tokens ≡ done
    → (v : World) → v ≡ delete_rows (owned_by id subject) (with_faults w fs)
    → (subject == other) ≡ false
    → (done ≡ any (owned_by id subject) w.tokens)
      × (any (owned_by id subject) v.tokens ≡ false)
      × (select (λ t. t.subject == other) v.tokens ≡ select (λ t. t.subject == other) w.tokens)
revoke_for_subject_run id subject other w fs done answer v after ne = (
  sym answer,
  rw after (any-discard (owned_by id subject) w.tokens),
  rw after (
      select-discard_other (λ t. t.subject == other) (owned_by id subject) w.tokens
        (other_owner id subject other ne)),
)

-- afterwards the user has no token with the id
pub revoke_for_subject-gone :
    (id subject : String) (w : World) {done : Bool}
    → (revoke_by_token_id_for_subject id subject w).0 ≡ ok done
    → any (owned_by id subject) (revoke_by_token_id_for_subject id subject w).1.tokens ≡ false
unfolding revoke_by_token_id_for_subject
revoke_for_subject-gone id subject w h =
    let mine = owned_by id subject in
    let (fs, ends) = execute-Ends (λ v. (any mine v.tokens, delete_rows mine v)) "delete token" w in
    elim ends [
      | inl (r, after) ↦ rw after (any-discard mine w.tokens)
      | inr (e, r, after) ↦ let bad = rw r at h in cc bad
    ]

-- A user who revokes a token by its id deletes at most a token of their own: the answer says whether
-- they had such a token, they have none afterwards, and the tokens of every other user are the same.
pub revoke_for_subject_lem :
    (id subject other : String) (w : World) {done : Bool}
    → (revoke_by_token_id_for_subject id subject w).0 ≡ ok done
    → (subject == other) ≡ false
    → let v = (revoke_by_token_id_for_subject id subject w).1 in
      (done ≡ any (owned_by id subject) w.tokens)
      × (any (owned_by id subject) v.tokens ≡ false)
      × (select (λ t. t.subject == other) v.tokens ≡ select (λ t. t.subject == other) w.tokens)
unfolding revoke_by_token_id_for_subject
revoke_for_subject_lem id subject other w {done} h ne =
    let mine = owned_by id subject in
    let (fs, ends) = execute-Ends (λ v. (any mine v.tokens, delete_rows mine v)) "delete token" w in
    elim ends [
      | inl (r, after) ↦
          revoke_for_subject_run id subject other w fs done (ok-injective (rw r at h))
            (revoke_by_token_id_for_subject id subject w).1 after ne
      | inr (e, r, after) ↦ let bad = rw r at h in cc bad
    ]

module _ (x : External) (plaintext : String) where
  abbrev has_hash : Token → Bool
  has_hash t = matches t.token_hash (x.sha256 plaintext)

  revoke_target-one :
      (t : Token)
      → matches t.token_hash (x.sha256 plaintext) ≡ true
      → length t.token_hash ≡ 32
      → revoke_target (x.sha256 plaintext) none (t ∷ []) ≡ some t.id
  unfolding revoke_target
  revoke_target-one t h size = ground arith

  -- a hash that no stored row has is refused
  refused :
      (v : World)
      → find has_hash v.tokens ≡ none
      → (verify_token x plaintext (with_faults v [])).0 ≡ ok none
  refused v none_left =
      let weaker =
        find-weaker has_hash (accepts x plaintext v.now) v.tokens
          (λ t h. let k = (h) in ground arith) none_left in
      verify_token-answered x plaintext v ∙ rw weaker refl

  revoke_found-deletes :
      (id : String) (v : World)
      → (revoke_found (some id) v).0 ≡ ok true
      → (revoke_found (some id) v).1.tokens ≡ discard (has_id id) v.tokens
  unfolding ◌>>=◌ delete_by_id
  revoke_found-deletes id v done =
      let (fs, ends) = write-Ends (delete_rows (has_id id)) "delete token" v in
      elim ends [
        | inl (r, after) ↦ rw (r, after) refl
        | inr (e, r, after) ↦ let bad = rw r at done in cc bad
      ]

  -- of the rows that the query gives, the one with the hash is deleted
  revoke_found_unique :
      (v : World)
      → length (x.sha256 plaintext) ≡ 32
      → count_if has_hash v.tokens ≤ 1
      → let run =
          revoke_found
            (revoke_target (x.sha256 plaintext) none (rows_with_hash (x.sha256 plaintext) v))
            v in
        run.0 ≡ ok true → find has_hash run.1.tokens ≡ none
  unfolding revoke_target ◌>>=◌
  revoke_found_unique v size unique done = elim (Option-cases (find has_hash v.tokens)) [
    | inl missing ↦
        let empty =
          select-count_if_zero has_hash v.tokens (count_if-find-none has_hash v.tokens missing) in
        let bad = rw empty at done in ground (arith, bad)
    | inr (t, found) ↦
        let alone = select_unique has_hash v.tokens unique found in
        let hit = find_sound has_hash v.tokens found in
        let same = matches_sound t.token_hash (x.sha256 plaintext) hit in
        let target = revoke_target-one t hit (ap length same ∙ size) in
        let done' = rw (alone, target) at done in
        let deleted = revoke_found-deletes t.id v done' in
        rw (alone, target, deleted)
          (find-discard_unique has_hash (has_id t.id) v.tokens unique found (eq_refl t.id))
  ]

  -- A token that a bearer revoked is refused from then on, if no two stored tokens have its hash.
  pub verify-revoke_by_token :
      (w : World)
      → length (x.sha256 plaintext) ≡ 32
      → count_if has_hash w.tokens ≤ 1
      → (revoke_by_token x plaintext w).0 ≡ ok true
      → (verify_token x plaintext (with_faults (revoke_by_token x plaintext w).1 [])).0 ≡ ok none
  unfolding revoke_by_token ◌>>=◌ query
  verify-revoke_by_token w size unique done =
      let hash = x.sha256 plaintext in
      let (fs, ends) = execute-Ends (λ v. (rows_with_hash hash v, v)) "query tokens for revoke" w in
      elim ends [
        | inl (r, v) ↦
            rw (r, v)
              (refused
                (revoke_found (revoke_target hash none (rows_with_hash hash w))
                  (with_faults w fs)).1
                (revoke_found_unique (with_faults w fs) size unique (rw (r, v) at done)))
        | inr (e, r, v) ↦ let bad = rw r at done in cc bad
      ]
