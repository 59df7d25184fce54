-- ===== src/Policy/Store/Laws.antt =====
-- What the operations of `PolicyStore` in crates/central/src/policy.rs do to the stored policies.
use oidc_agent_compat.Prelude.{
  ℕ, ◌≤◌, String, ◌==◌, eq_iff, eq_refl, ◌≡◌, refl, true, false, Option, none, some, List, [], ◌∷◌,
  find, select, count_if, find_sound, find-update, count_if-update, find-concat, count_if-find-none,
  count_if-concat, count_if-concat_other, select_unique, ap, arith, inl, inr,
}
use oidc_agent_compat.Error.{ok}
use oidc_agent_compat.Entity.{GroupPolicy}
use oidc_agent_compat.External.{External}
use oidc_agent_compat.World.{World, ◌>>=◌, query, write, now_utc, new_v4, format_time}
use oidc_agent_compat.World.Cases.{with_faults, execute-Ends}
use oidc_agent_compat.Policy.Merge.{contains, merge_row, merge_rows, finish, resolve_rows}
use oidc_agent_compat.Prelude.{find-discard_other, discard, any, select, ◌∙◌, Bool, []}
use oidc_agent_compat.Policy.Merge.{default_policy}
use oidc_agent_compat.Policy.Store.{delete_policy}
use oidc_agent_compat.Policy.Store.{
  resolve_policy, has_name, has_id, get_policy, PolicyFields, overwrite, new_row,
  upsert_policy_full, write_policy,
}

-- No two rows have one group name: the column `group_name` is declared unique.
abbrev pub HasUniqueNames : World → Type 0
HasUniqueNames w = (g : String) → count_if (has_name g) w.group_policies ≤ 1

name_eq : (a b g : String) → (a == b) ≡ true → (a == g) ≡ false → (b == g) ≡ false
name_eq a b g h k = ground (arith, eq_iff a b)

write_policy-HasUniqueNames :
    (group_name : String) (f : PolicyFields) (existing : Option GroupPolicy) (w : World)
    → (existing ≡ none → find (has_name group_name) w.group_policies ≡ none)
    → HasUniqueNames w
    → HasUniqueNames (write_policy group_name f existing w).1
unfolding write_policy ◌>>=◌ write now_utc new_v4
write_policy-HasUniqueNames group_name f (some m) w absent h g = ground (
  arith,
  h g,
  count_if-update (has_name g) (has_id m.id) (overwrite f w.now) (λ r. refl) w.group_policies,
)
write_policy-HasUniqueNames group_name f none w absent h g = ground (
  arith,
  h g,
  absent refl,
  name_eq group_name g,
  count_if-concat (has_name g) w.group_policies
      (new_row (w.uuids w.drawn) group_name f (format_time w.now) (format_time w.now)),
  count_if-concat_other (has_name g) w.group_policies
      (new_row (w.uuids w.drawn) group_name f (format_time w.now) (format_time w.now)),
  count_if-find-none (has_name g) w.group_policies,
  eq_iff group_name g,
)

-- Whether it succeeds or not, an upsert keeps the group names unique.
pub upsert_policy_full-HasUniqueNames :
    (group_name : String) (f : PolicyFields) (w : World)
    → HasUniqueNames w
    → HasUniqueNames (upsert_policy_full group_name f w).1
unfolding upsert_policy_full get_policy ◌>>=◌ query
upsert_policy_full-HasUniqueNames group_name f w h =
    let (fs, ends) =
      execute-Ends (λ v. (find (has_name group_name) v.group_policies, v)) "get group policy" w in
    elim ends [
      | inl (r, v) ↦
          rw (r, v)
            (write_policy-HasUniqueNames group_name f (find (has_name group_name) w.group_policies)
              (with_faults w fs) (λ e. e) h)
      | inr (e, r, v) ↦ rw (r, v) h
    ]

module _ (group_name : String) (f : PolicyFields) where
  overwrite-eq-new_row :
      (now : ℕ) (m : GroupPolicy)
      → m.group_name ≡ group_name
      → overwrite f now m ≡ new_row m.id group_name f m.created_at (format_time now)
  overwrite-eq-new_row now m e = ap (λ n. new_row m.id n f m.created_at (format_time now)) e

  -- the row that a successful write leaves under the name
  write_policy-find :
      (existing : Option GroupPolicy) (w : World) {row : GroupPolicy}
      → find (has_name group_name) w.group_policies ≡ existing
      → (write_policy group_name f existing w).0 ≡ ok row
      → (id : String) × (created : ℕ) × (updated : ℕ) × (find
            (has_name group_name)
            (write_policy group_name f existing w).1.group_policies
          ≡ some (new_row id group_name f created updated))
  unfolding write_policy ◌>>=◌ write now_utc new_v4
  write_policy-find (some m) w found done = (
    m.id,
    m.created_at,
    format_time w.now,
    ground (
      arith,
      find_sound (has_name group_name) w.group_policies found,
      eq_iff m.group_name group_name,
      overwrite-eq-new_row w.now m,
      eq_refl m.id,
      find-update (has_name group_name) (has_id m.id) (overwrite f w.now) (λ r. refl)
          w.group_policies found,
    ),
  )
  write_policy-find none w absent done = (
    w.uuids w.drawn,
    format_time w.now,
    format_time w.now,
    ground (
      arith,
      eq_refl group_name,
      find-concat (has_name group_name) w.group_policies
          (new_row (w.uuids w.drawn) group_name f (format_time w.now) (format_time w.now)),
    ),
  )

  upsert_policy_full-find :
      (w : World) {row : GroupPolicy}
      → (upsert_policy_full group_name f w).0 ≡ ok row
      → (id : String) × (created : ℕ) × (updated : ℕ) × (find
            (has_name group_name)
            (upsert_policy_full group_name f w).1.group_policies
          ≡ some (new_row id group_name f created updated))
  unfolding upsert_policy_full get_policy ◌>>=◌ query
  upsert_policy_full-find w done =
      let (fs, ends) =
        execute-Ends (λ v. (find (has_name group_name) v.group_policies, v)) "get group policy" w in
      elim ends [
        | inl (r, v) ↦ rw (r, v) (write_policy-find _ (with_faults w fs) refl (rw (r, v) at done))
        | inr (e, r, v) ↦ let bad = rw r at done in cc bad
      ]

eq_sym : (a b : String) → (a == b) ≡ (b == a)
eq_sym a b = ground (arith, eq_iff a b, eq_iff b a)

select_by_name :
    (g : String) (rows : List GroupPolicy)
    → select (λ r. contains (g ∷ []) r.group_name) rows ≡ select (has_name g) rows
select_by_name g [] = refl
select_by_name g (r ∷ rows) = ground (arith, eq_sym g r.group_name, select_by_name g rows)

module _ (x : External) (group_name : String) (f : PolicyFields) where
  -- Where group names are unique, after a successful upsert a request from a user of that group
  -- alone is judged by exactly the columns that were written.
  pub resolve-upsert_policy_full :
      (w : World) {row : GroupPolicy}
      → HasUniqueNames w
      → (upsert_policy_full group_name f w).0 ≡ ok row
      → (resolve_policy x
          (group_name ∷ [])
          (with_faults (upsert_policy_full group_name f w).1 [])).0
        ≡ ok (resolve_rows x.parse_strings (new_row "" group_name f 0 0 ∷ []))
  unfolding resolve_policy ◌>>=◌ query resolve_rows finish merge_rows merge_row
  resolve-upsert_policy_full w unique done =
      let v = (upsert_policy_full group_name f w).1 in
      let (id, created, updated, found) = upsert_policy_full-find group_name f w done in
      let alone =
        select_unique (has_name group_name) v.group_policies
          (upsert_policy_full-HasUniqueNames group_name f w unique group_name) found in
      rw (select_by_name group_name v.group_policies, alone) refl

other_name : (a b g : String) → (a == b) ≡ false → (g == a) ≡ true → (g == b) ≡ false
other_name a b g ne h = ground (arith, eq_iff g a, eq_iff g b, eq_iff a b)

select-discard {ℓ} : {A : Type ℓ} (p : A → Bool) (xs : List A) → select p (discard p xs) ≡ []
select-discard p [] = refl
select-discard p (a ∷ xs) = ground (arith, select-discard p xs)

-- After a deletion that the database carries out, a user of that group alone has no policy, which
-- permits everything, and every other group's policy is found as before.
pub resolve-delete_policy :
    (x : External) (group_name other : String) (w : World) {done : Bool}
    → (delete_policy group_name w).0 ≡ ok done
    → (group_name == other) ≡ false
    → let v = (delete_policy group_name w).1 in
      ((resolve_policy x (group_name ∷ []) (with_faults v [])).0 ≡ ok default_policy)
      × (find (has_name other) v.group_policies ≡ find (has_name other) w.group_policies)
unfolding delete_policy resolve_policy ◌>>=◌ query resolve_rows
resolve-delete_policy x group_name other w h ne =
    let gone = has_name group_name in
    let (fs, ends) =
      execute-Ends
        (λ v.
          (any gone v.group_policies, record v { group_policies = discard gone v.group_policies }))
        "delete group policy" w in
    elim ends [
      | inl (r, after) ↦
          let empty =
            select_by_name group_name (discard gone w.group_policies)
            ∙ select-discard gone w.group_policies in
          let others =
            find-discard_other (has_name other) gone w.group_policies
              (λ row k. other_name group_name other row.group_name ne k) in
          (rw (after, empty) refl, rw after others)
      | inr (e, r, after) ↦ let bad = rw r at h in cc bad
    ]
