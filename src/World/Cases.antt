-- ===== src/World/Cases.antt =====
-- The two ways in which a statement ends, for proofs in which the statements stay shut.
use oidc_agent_compat.Prelude.{
  String, ◌<>◌, ◌≡◌, refl, ap, ◌⊎◌, inl, inr, List, [], ◌∷◌, Option, none, some,
}
use oidc_agent_compat.Error.{Error, database, Result, ok, err}
use oidc_agent_compat.World.{World, Exec, continue, ◌>>=◌, answer, execute, write}

abbrev pub with_faults : World → List (Option String) → World
with_faults w fs = record w { faults = fs }

-- It runs or fails, and what else it does to the world is to take an item of `faults`.
module _ {κ} {A : Type κ} (run : World → A × World) where
  abbrev pub Ends : World → Result Error A × World → Type κ
  Ends w (r, v) =
      (fs : List (Option String)) × ((r ≡ ok (run (with_faults w fs)).0)
          × (v ≡ (run (with_faults w fs)).1)
        ⊎ ((e : Error) × (r ≡ err e) × (v ≡ with_faults w fs)))

  answer-Ends :
      (fs : List (Option String)) (label : String) (w : World) → Ends w (answer fs label run w)
  answer-Ends [] label w = ([], inl (refl, refl))
  answer-Ends (none ∷ fs) label w = (fs, inl (refl, refl))
  answer-Ends (some m ∷ fs) label w = (fs, inr (_, refl, refl))

  pub execute-Ends : (label : String) (w : World) → Ends w (execute label run w)
  unfolding execute
  execute-Ends label w = answer-Ends w.faults label w

  -- while the database answers
  pub execute-answered :
      (label : String) (w : World)
      → w.faults ≡ []
      → let done = run (with_faults w []) in execute label run w ≡ (ok done.0, done.1)
  unfolding execute
  execute-answered label w h = rw h refl

-- It runs, or it fails as the first item of `faults` says.
module _ {κ} {A : Type κ} (run : World → A × World) where
  abbrev pub Faulted : String → World → Result Error A × World → Type κ
  Faulted label w (r, v) =
      ((fs : List (Option String)) × (r ≡ ok (run (with_faults w fs)).0)
        × (v ≡ (run (with_faults w fs)).1))
      ⊎ ((m : String) × (later : List (Option String)) × (w.faults ≡ some m ∷ later)
          × (r ≡ err (database (label <> ": " <> m))))

  answer-Faulted :
      (fs : List (Option String)) (label : String) (w : World)
      → w.faults ≡ fs
      → Faulted label w (answer fs label run w)
  answer-Faulted [] label w h = inl ([], refl, refl)
  answer-Faulted (none ∷ fs) label w h = inl (fs, refl, refl)
  answer-Faulted (some m ∷ fs) label w h = inr (m, fs, h, refl)

  pub execute-Faulted : (label : String) (w : World) → Faulted label w (execute label run w)
  unfolding execute
  execute-Faulted label w = answer-Faulted w.faults label w refl

pub write-Ends :
    (change : World → World) (label : String) (w : World)
    → let (r, v) = write label change w in
      (fs : List (Option String)) × ((r ≡ ok tt) × (v ≡ change (with_faults w fs))
        ⊎ ((e : Error) × (r ≡ err e) × (v ≡ with_faults w fs)))
unfolding write
write-Ends change label w = execute-Ends {0} (λ v. (tt, change v)) label w

-- A step that succeeds hands its value and its world on.
pub bind-ok {ℓ κ μ} :
    {E : Type ℓ} {A : Type κ} {B : Type μ} (m : Exec E A) (f : A → Exec E B) (w : World) {a : A}
    → (m w).0 ≡ ok a
    → (m >>= f) w ≡ f a (m w).1
unfolding ◌>>=◌
bind-ok {E} {A} {B} m f w h =
    ap (λ (r : Result E A). continue {E = E} {A = A} {B = B} r f (m w).1) h
