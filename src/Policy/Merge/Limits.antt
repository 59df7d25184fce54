-- ===== src/Policy/Merge/Limits.antt =====
-- The quotas, the token lifetime and the budget of the merged policy, for the loop of
-- `resolve_policy` in crates/central/src/policy.rs.
use oidc_agent_compat.Prelude.{
  String, ◌≡◌, refl, ◌⊎◌, inl, inr, Option, none, some, List, [], ◌∷◌, map, All, Some, arith,
}
use oidc_agent_compat.Prelude.Int.{ℤ, ◌≤ℤ◌, as_u64}
use oidc_agent_compat.Entity.{GroupPolicy}
use oidc_agent_compat.Policy.Merge.{
  Merged, nothing_merged, merge_quota, merge_budget, merge_cap, merge_row, merge_rows, finish,
  resolve_rows,
}

abbrev AtMost : ℤ → Option ℤ → Type 0
AtMost b none = Unit
AtMost b (some a) = a ≤ℤ b

abbrev AtLeast : ℤ → Option ℤ → Type 0
AtLeast b none = Unit
AtLeast b (some a) = b ≤ℤ a

-- The limit is the greatest of the given ones, and absent only where all of them are.
abbrev pub IsGreatest : List (Option ℤ) → Option ℤ → Type 0
IsGreatest xs none = All (λ x. x ≡ none) xs
IsGreatest xs (some b) = All (AtMost b) xs × Some (λ x. x ≡ some b) xs

-- The least of the given ones, and absent only where all of them are.
abbrev pub IsLeast : List (Option ℤ) → Option ℤ → Type 0
IsLeast xs none = All (λ x. x ≡ none) xs
IsLeast xs (some b) = All (AtLeast b) xs × Some (λ x. x ≡ some b) xs

fold : (Option ℤ → Option ℤ → Option ℤ) → Option ℤ → List (Option ℤ) → Option ℤ
fold op acc [] = acc
fold op acc (x ∷ xs) = fold op (op acc x) xs

IsGreatest-merge_quota :
    (acc x r : Option ℤ) (xs : List (Option ℤ))
    → IsGreatest (merge_quota acc x ∷ xs) r
    → IsGreatest (acc ∷ x ∷ xs) r
unfolding merge_quota
IsGreatest-merge_quota none none none xs h = ground arith
IsGreatest-merge_quota _ _ _ xs h = ground arith

IsLeast-merge_cap :
    (acc x r : Option ℤ) (xs : List (Option ℤ))
    → IsLeast (merge_cap acc x ∷ xs) r
    → IsLeast (acc ∷ x ∷ xs) r
unfolding merge_cap
IsLeast-merge_cap none none none xs h = ground arith
IsLeast-merge_cap _ _ _ xs h = ground arith

IsGreatest-fold :
    (acc : Option ℤ) (xs : List (Option ℤ)) → IsGreatest (acc ∷ xs) (fold merge_quota acc xs)
unfolding fold
IsGreatest-fold none [] = ground arith
IsGreatest-fold (some a) [] = ground arith
IsGreatest-fold acc (x ∷ xs) =
    IsGreatest-merge_quota acc x _ xs (IsGreatest-fold (merge_quota acc x) xs)

IsLeast-fold : (acc : Option ℤ) (xs : List (Option ℤ)) → IsLeast (acc ∷ xs) (fold merge_cap acc xs)
unfolding fold
IsLeast-fold none [] = ground arith
IsLeast-fold (some a) [] = ground arith
IsLeast-fold acc (x ∷ xs) = IsLeast-merge_cap acc x _ xs (IsLeast-fold (merge_cap acc x) xs)

-- The loops start from no limit.
IsGreatest-tail : (xs : List (Option ℤ)) (r : Option ℤ) → IsGreatest (none ∷ xs) r → IsGreatest xs r
IsGreatest-tail xs none h = h.1
IsGreatest-tail xs (some b) h = ground arith

IsLeast-tail : (xs : List (Option ℤ)) (r : Option ℤ) → IsLeast (none ∷ xs) r → IsLeast xs r
IsLeast-tail xs none h = h.1
IsLeast-tail xs (some b) h = ground arith

IsGreatest-fold-none : (xs : List (Option ℤ)) → IsGreatest xs (fold merge_quota none xs)
IsGreatest-fold-none xs = IsGreatest-tail xs _ (IsGreatest-fold none xs)

IsLeast-fold-none : (xs : List (Option ℤ)) → IsLeast xs (fold merge_cap none xs)
IsLeast-fold-none xs = IsLeast-tail xs _ (IsLeast-fold none xs)

-- The limit is given by every row, or by none.
abbrev pub Uniform : List (Option ℤ) → Type 0
Uniform xs = All (λ x. x ≡ none) xs ⊎ All (λ x. (a : ℤ) × (x ≡ some a)) xs

-- All rows give a limit and the result is their greatest, or no row does and there is no limit.
abbrev pub IsMaximum : List (Option ℤ) → Option ℤ → Type 0
IsMaximum xs r =
    (All (λ x. x ≡ none) xs × (r ≡ none))
    ⊎ ((b : ℤ) × (r ≡ some b)
        × All (λ x. (a : ℤ) × (x ≡ some a) × (a ≤ℤ b)) xs
        × Some (λ x. x ≡ some b) xs)

none_given : (b : ℤ) (xs : List (Option ℤ)) → All (λ x. x ≡ none) xs → Some (λ x. x ≡ some b) xs → ⊥
none_given b [] h k = k
none_given b (x ∷ xs) (h, more) (inl k) = let bad = rw h at k in cc bad
none_given b (x ∷ xs) (h, more) (inr k) = none_given b xs more k

given_bounded :
    (b : ℤ) (xs : List (Option ℤ))
    → All (λ x. (a : ℤ) × (x ≡ some a)) xs
    → All (AtMost b) xs
    → All (λ x. (a : ℤ) × (x ≡ some a) × (a ≤ℤ b)) xs
given_bounded b [] h k = tt
given_bounded b (x ∷ xs) ((a, e), more) (k, later) =
    let bounded : AtMost b (some a) = rw e at k in ((a, e, bounded), given_bounded b xs more later)

IsMaximum-Uniform :
    (x : Option ℤ) (xs : List (Option ℤ)) (r : Option ℤ)
    → Uniform (x ∷ xs)
    → IsGreatest (x ∷ xs) r
    → IsMaximum (x ∷ xs) r
IsMaximum-Uniform x xs none u h = inl (h, refl)
IsMaximum-Uniform x xs (some b) (inl absent) h = absurd (none_given b (x ∷ xs) absent h.1)
IsMaximum-Uniform x xs (some b) (inr given) h =
    inr (b, refl, given_bounded b (x ∷ xs) given h.0, h.1)

module _ (parse : String → Option (List String)) where
  -- each limit of the loop is a fold over its column
  limits-merge_rows :
      (acc : Merged) (rows : List GroupPolicy)
      → ((merge_rows parse acc rows).daily_token_quota
          ≡ fold merge_quota acc.daily_token_quota (map (λ r. r.daily_token_quota) rows))
        × ((merge_rows parse acc rows).daily_request_quota
            ≡ fold merge_quota acc.daily_request_quota (map (λ r. r.daily_request_quota) rows))
        × ((merge_rows parse acc rows).max_token_ttl_seconds
            ≡ fold merge_cap acc.max_token_ttl_seconds (map (λ r. r.max_token_ttl_seconds) rows))
  unfolding merge_rows merge_row fold
  limits-merge_rows acc [] = (refl, refl, refl)
  limits-merge_rows acc (row ∷ rows) = limits-merge_rows (merge_row parse acc row) rows

  -- Where each quota is given by every row or by none, the merged quota is the greatest of the given
  -- ones, or absent where none is given. The merged token lifetime is the least of the given ones,
  -- whatever rows give none, and absent only where no row gives one.
  pub limits-resolve_rows :
      (row : GroupPolicy) (rows : List GroupPolicy)
      → Uniform (map (λ r. r.daily_token_quota) (row ∷ rows))
      → Uniform (map (λ r. r.daily_request_quota) (row ∷ rows))
      → let p = resolve_rows parse (row ∷ rows) in
        IsMaximum (map (λ r. r.daily_token_quota) (row ∷ rows)) p.daily_token_quota
        × IsMaximum (map (λ r. r.daily_request_quota) (row ∷ rows)) p.daily_request_quota
        × IsLeast (map (λ r. r.max_token_ttl_seconds) (row ∷ rows)) p.max_token_ttl_seconds
  unfolding resolve_rows finish
  limits-resolve_rows row rows spent made =
      let (tokens, requests, cap) = limits-merge_rows nothing_merged (row ∷ rows) in
      (
        rw tokens (
            IsMaximum-Uniform _ (map (λ r. r.daily_token_quota) rows) _ spent
              (IsGreatest-fold-none (map (λ r. r.daily_token_quota) (row ∷ rows)))),
        rw requests (
            IsMaximum-Uniform _ (map (λ r. r.daily_request_quota) rows) _ made
              (IsGreatest-fold-none (map (λ r. r.daily_request_quota) (row ∷ rows)))),
        rw cap (IsLeast-fold-none (map (λ r. r.max_token_ttl_seconds) (row ∷ rows))),
      )

  -- With one row that has no budget and one row with the budget `n`, the merged budget is `n` or
  -- none, depending on which row comes first.
  pub budget_order :
      (unlimited limited : GroupPolicy) (n : ℤ)
      → unlimited.max_input_tokens ≡ none
      → limited.max_input_tokens ≡ some n
      → ((resolve_rows parse (unlimited ∷ limited ∷ [])).token_saver.max_input_tokens
          ≡ some (as_u64 n))
        × ((resolve_rows parse (limited ∷ unlimited ∷ [])).token_saver.max_input_tokens ≡ none)
  unfolding resolve_rows finish merge_rows merge_row merge_budget
  budget_order unlimited limited n h k = (rw (h, k), rw (k, h))
