-- ===== src/Prelude/Rows.antt =====
-- Tables as lists of rows: what an update, an insertion or a deletion does to a search by key.
use Prim.Native.Nat.{suc, ◌≤◌}
use mathlib.Core.Path.{◌≡◌, refl}
use mathlib.Core.Bool.{Bool, true, false}
use mathlib.Core.Option.{none, some}
use mathlib.Core.List.{List, [], ◌∷◌, ◌++◌}
use native.Mathlib.Omega.{arith}
use oidc_agent_compat.Prelude.Tests.{if◌then◌else◌}
use oidc_agent_compat.Prelude.Lists.{find, select, discard, update, count_if}

-- an update that keeps the tested property keeps what a search for it finds, updated or not
module _ {ℓ} {A : Type ℓ} (p q : A → Bool) (f : A → A) (keeps : (a : A) → p (f a) ≡ p a) where
  pub find-update :
      (xs : List A) {a : A}
      → find p xs ≡ some a
      → find p (update q f xs) ≡ some (if q a then f a else a)
  find-update [] h = ground arith
  find-update (y ∷ xs) {a} h = ground (arith, keeps y, find-update xs {a = a})

  pub find-update-none : (xs : List A) → find p xs ≡ none → find p (update q f xs) ≡ none
  find-update-none [] h = refl
  find-update-none (y ∷ xs) h = ground (arith, keeps y, find-update-none xs)

  pub count_if-update : (xs : List A) → count_if p (update q f xs) ≡ count_if p xs
  count_if-update [] = refl
  count_if-update (y ∷ xs) = ground (arith, keeps y, count_if-update xs)

module _ {ℓ} {A : Type ℓ} (p : A → Bool) where
  pub find-concat :
      (xs : List A) (a : A) → find p xs ≡ none → p a ≡ true → find p (xs ++ a ∷ []) ≡ some a
  find-concat [] a h k = ground arith
  find-concat (y ∷ xs) a h k = ground (arith, find-concat xs a)

  pub count_if-find-none : (xs : List A) → find p xs ≡ none → count_if p xs ≡ 0
  count_if-find-none [] h = refl
  count_if-find-none (y ∷ xs) h = ground (arith, count_if-find-none xs)

  pub count_if-concat : (xs : List A) (a : A) → count_if p (xs ++ a ∷ []) ≤ suc (count_if p xs)
  count_if-concat [] a = ground arith
  count_if-concat (y ∷ xs) a = ground (arith, count_if-concat xs a)

  pub count_if-concat_other :
      (xs : List A) (a : A) → p a ≡ false → count_if p (xs ++ a ∷ []) ≡ count_if p xs
  count_if-concat_other [] a h = ground arith
  count_if-concat_other (y ∷ xs) a h = ground (arith, count_if-concat_other xs a)

  pub select-count_if_zero : (xs : List A) → count_if p xs ≡ 0 → select p xs ≡ []
  select-count_if_zero [] h = refl
  select-count_if_zero (y ∷ xs) h = ground (arith, select-count_if_zero xs)

  -- a row that is alone with its key is all that a query for the key returns
  pub select_unique :
      (xs : List A) {a : A} → count_if p xs ≤ 1 → find p xs ≡ some a → select p xs ≡ a ∷ []
  select_unique [] h k = ground arith
  select_unique (y ∷ xs) {a} h k = ground (arith, select-count_if_zero xs, select_unique xs {a = a})

  pub find-concat_found :
      (xs : List A) (a : A) {b : A} → find p xs ≡ some b → find p (xs ++ a ∷ []) ≡ some b
  find-concat_found [] a h = ground arith
  find-concat_found (y ∷ xs) a {b} h = ground (arith, find-concat_found xs a {b = b})

  pub find-concat_other : (xs : List A) (a : A) → p a ≡ false → find p (xs ++ a ∷ []) ≡ find p xs
  find-concat_other [] a h = ground arith
  find-concat_other (y ∷ xs) a h = ground (arith, find-concat_other xs a)

module _ {ℓ} {A : Type ℓ} (p q : A → Bool) where
  -- a deletion of other rows
  pub find-discard_other :
      (xs : List A) → ((a : A) → q a ≡ true → p a ≡ false) → find p (discard q xs) ≡ find p xs
  find-discard_other [] h = refl
  find-discard_other (y ∷ xs) h = ground (arith, h y, find-discard_other xs h)

  -- an update of other rows
  pub find-update_other :
      (f : A → A) (xs : List A)
      → ((a : A) → p (f a) ≡ p a)
      → ((a : A) → q a ≡ true → p a ≡ false)
      → find p (update q f xs) ≡ find p xs
  find-update_other f [] keeps h = refl
  find-update_other f (y ∷ xs) keeps h =
      ground (arith, keeps y, h y, find-update_other f xs keeps h)
