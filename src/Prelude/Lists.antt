-- ===== src/Prelude/Lists.antt =====
-- Lists: length over the native numbers, Boolean search, filters by a Boolean test, and the
-- predicates that the statements use.
use Prim.Native.Nat.{ℕ, suc, ◌≤◌}
use mathlib.Core.Path.{◌≡◌, refl}
use mathlib.Core.Logic.{◌⊎◌}
use mathlib.Core.Bool.{Bool, true, false, ◌||◌}
use mathlib.Core.Option.{Option, none, some}
use mathlib.Core.List.{List, [], ◌∷◌, ◌++◌}
use native.Mathlib.Omega.{arith}
use oidc_agent_compat.Prelude.Tests.{if◌then◌else◌}

module _ {ℓ} {A : Type ℓ} where
  abbrev pub length : List A → ℕ
  length [] = 0
  length (x ∷ xs) = suc (length xs)

  -- `iter().any(p)`
  abbrev pub any : (A → Bool) → List A → Bool
  any p [] = false
  any p (x ∷ xs) = p x || any p xs

  -- `iter().find(p)`, and the first row of a query by a key
  abbrev pub find : (A → Bool) → List A → Option A
  find p [] = none
  find p (x ∷ xs) = if p x then some x else find p xs

  -- the rows that a test selects, in their order
  abbrev pub select : (A → Bool) → List A → List A
  select p [] = []
  select p (x ∷ xs) = let rest = select p xs in if p x then x ∷ rest else rest

  -- the rows that a test does not select
  abbrev pub discard : (A → Bool) → List A → List A
  discard p [] = []
  discard p (x ∷ xs) = let rest = discard p xs in if p x then rest else x ∷ rest

  -- an `UPDATE` of the rows that a test selects
  abbrev pub update : (A → Bool) → (A → A) → List A → List A
  update p f [] = []
  update p f (x ∷ xs) = (if p x then f x else x) ∷ update p f xs

  abbrev pub count_if : (A → Bool) → List A → ℕ
  count_if p [] = 0
  count_if p (x ∷ xs) = if p x then suc (count_if p xs) else count_if p xs

module _ {ℓ} {A : Type ℓ} (P : A → Type 0) where
  abbrev pub All : List A → Type 0
  All [] = Unit
  All (x ∷ xs) = P x × All xs

  abbrev pub Some : List A → Type 0
  Some [] = ⊥
  Some (x ∷ xs) = P x ⊎ Some xs

module _ {ℓ} {A : Type ℓ} where
  pub any-append : (p : A → Bool) (xs ys : List A) → any p (xs ++ ys) ≡ (any p xs || any p ys)
  any-append p [] ys = refl
  any-append p (x ∷ xs) ys = ground (arith, any-append p xs ys)

  pub find_sound : (p : A → Bool) (xs : List A) {x : A} → find p xs ≡ some x → p x ≡ true
  find_sound p [] h = ground arith
  find_sound p (y ∷ xs) {x} h = ground (arith, find_sound p xs {x = x})

  pub find-discard : (p : A → Bool) (xs : List A) → find p (discard p xs) ≡ none
  find-discard p [] = refl
  find-discard p (x ∷ xs) = ground (arith, find-discard p xs)

  pub count_if-le-length : (p : A → Bool) (xs : List A) → count_if p xs ≤ length xs
  count_if-le-length p [] = omega arith
  count_if-le-length p (x ∷ xs) = ground (arith, count_if-le-length p xs)

  pub count_if-discard : (p : A → Bool) (xs : List A) → count_if p (discard p xs) ≡ 0
  count_if-discard p [] = refl
  count_if-discard p (x ∷ xs) = ground (arith, count_if-discard p xs)

pub All-map {ℓ} :
    {A : Type ℓ} {P Q : A → Type 0} → ((a : A) → P a → Q a) → (xs : List A) → All P xs → All Q xs
All-map f [] h = tt
All-map f (a ∷ xs) (h, more) = (f a h, All-map f xs more)

pub All-append {ℓ} :
    {A : Type ℓ} (P : A → Type 0) (xs ys : List A) → All P xs → All P ys → All P (xs ++ ys)
All-append P [] ys h k = k
All-append P (a ∷ xs) ys (h, more) k = (h, All-append P xs ys more k)

-- `ORDER BY`: rows that are not in order by the test are exchanged, others keep their order
module _ {ℓ} {A : Type ℓ} (later : A → A → Bool) where
  unfoldable pub insert_by : A → List A → List A
  insert_by a [] = a ∷ []
  insert_by a (b ∷ bs) = let rest = insert_by a bs in if later a b then b ∷ rest else a ∷ b ∷ bs

  unfoldable pub sort_by : List A → List A
  unfolding insert_by
  sort_by [] = []
  sort_by (a ∷ rows) = insert_by a (sort_by rows)

module _ {ℓ} {A : Type ℓ} (later : A → A → Bool) (p : A → Bool) where
  any-insert_by : (a : A) (rows : List A) → any p (insert_by later a rows) ≡ (p a || any p rows)
  unfolding insert_by
  any-insert_by a [] = refl
  any-insert_by a (b ∷ rows) = ground (arith, any-insert_by a rows)

  pub any-sort_by : (rows : List A) → any p (sort_by later rows) ≡ any p rows
  unfolding sort_by
  any-sort_by [] = refl
  any-sort_by (a ∷ rows) = rw (any-insert_by a (sort_by later rows), any-sort_by rows)
