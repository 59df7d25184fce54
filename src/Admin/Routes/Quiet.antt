-- ===== src/Admin/Routes/Quiet.antt =====
-- The stores write nothing to the admin audit log.
pub mod Stores
pub mod Keys
use oidc_agent_compat.Prelude.{
  String, ◌≡◌, refl, sym, ◌∙◌, Bool, true, false, List, [], ◌∷◌, Option, none, some, if◌then◌else◌,
}
use oidc_agent_compat.Error.{Error, Result, ok, err}
use oidc_agent_compat.World.{
  World, Exec, pure, raise, lift, ◌>>=◌, ◌>>◌, continue, map_err, relabel, attempt, answer, query,
  execute, write, now_utc, new_v4,
}

-- the log is the same, and a database that answers goes on to do so
abbrev pub Same : World → World → Type 0
Same w v = (v.admin_audit_log ≡ w.admin_audit_log) × (w.faults ≡ [] → v.faults ≡ [])

-- the same without any other condition on the faults
abbrev pub Alike : World → World → Type 0
Alike w v = (v.admin_audit_log ≡ w.admin_audit_log) × (v.faults ≡ w.faults)

pub record Quiet {ℓ κ} {E : Type ℓ} {A : Type κ} (m : Exec E A) : Type 0 where
  pub keeps : (w : World) → Same w (m w).1

pub Same-trans : (u v w : World) → Same u v → Same v w → Same u w
Same-trans u v w (h, f) (k, g) = (k ∙ h, λ e. g (f e))

module _ {ℓ κ} {E : Type ℓ} {A : Type κ} where
  pub Quiet-pure : (a : A) → Quiet (pure {E = E} a)
  unfolding ◌>>=◌
  Quiet-pure a = record { keeps = λ w. (refl, λ h. h) }

  pub Quiet-raise : (e : E) → Quiet (raise {A = A} e)
  unfolding ◌>>=◌
  Quiet-raise e = record { keeps = λ w. (refl, λ h. h) }

  pub Quiet-lift : (r : Result E A) → Quiet (lift r)
  unfolding ◌>>=◌
  Quiet-lift r = record { keeps = λ w. (refl, λ h. h) }

  pub Quiet-if : (b : Bool) (m n : Exec E A) → Quiet m → Quiet n → Quiet (if b then m else n)
  Quiet-if true m n h k = h
  Quiet-if false m n h k = k

module _ {ℓ κ μ} {E : Type ℓ} {A : Type κ} {B : Type μ} where
  Quiet-continue :
      (r : Result E A) (f : A → Exec E B) → ((a : A) → Quiet (f a)) → Quiet (continue r f)
  Quiet-continue (ok a) f k = record { keeps = λ w. (k a).keeps w }
  Quiet-continue (err e) f k = record { keeps = λ w. (refl, λ h. h) }

  pub Quiet-bind :
      (m : Exec E A) (f : A → Exec E B) → Quiet m → ((a : A) → Quiet (f a)) → Quiet (m >>= f)
  unfolding ◌>>=◌
  Quiet-bind m f h k = record {
    keeps = λ w.
        Same-trans w (m w).1 (continue (m w).0 f (m w).1).1 (h.keeps w)
          ((Quiet-continue (m w).0 f k).keeps (m w).1);
  }

module _ {ℓ μ κ} {E : Type ℓ} {F : Type μ} {A : Type κ} where
  pub Quiet-map_err : (f : E → F) (m : Exec E A) → Quiet m → Quiet (map_err f m)
  unfolding map_err
  Quiet-map_err f m h = record { keeps = λ w. h.keeps w }

module _ {κ} {A : Type κ} (run : World → A × World) (alike : (u : World) → Alike u (run u).1) where
  Quiet-answer :
      (faults : List (Option String)) (label : String) (w : World)
      → w.faults ≡ faults
      → Same w (answer faults label run w).1
  Quiet-answer [] label w e = let (log, rest) = alike (record w { faults = [] }) in (log, λ h. rest)
  Quiet-answer (none ∷ fs) label w e =
      let (log, rest) = alike (record w { faults = fs }) in
      (log, λ h. let bad = sym e ∙ h in cc bad)
  Quiet-answer (some m ∷ fs) label w e = (refl, λ h. let bad = sym e ∙ h in cc bad)

  Quiet-run : (label : String) → Quiet (execute label run)
  unfolding execute
  Quiet-run label = record { keeps = λ w. Quiet-answer w.faults label w refl }

pub Quiet-execute {κ} :
    {A : Type κ} (label : String) (run : World → A × World)
    → ((u : World) → (run u).1.admin_audit_log ≡ u.admin_audit_log)
    → ((u : World) → (run u).1.faults ≡ u.faults)
    → Quiet (execute label run)
Quiet-execute label run h k = Quiet-run run (λ u. (h u, k u)) label

pub Quiet-query {κ} : {A : Type κ} (label : String) (read : World → A) → Quiet (query label read)
unfolding query
Quiet-query label read = Quiet-run (λ w. (read w, w)) (λ u. (refl, refl)) label

pub Quiet-write :
    (label : String) (change : World → World)
    → ((u : World) → (change u).admin_audit_log ≡ u.admin_audit_log)
    → ((u : World) → (change u).faults ≡ u.faults)
    → Quiet (write label change)
unfolding write
Quiet-write label change h k = Quiet-run {0} (λ w. (tt, change w)) (λ u. (h u, k u)) label

pub Quiet-now_utc {ℓ} : {E : Type ℓ} → Quiet (now_utc {E = E})
unfolding now_utc
Quiet-now_utc = record { keeps = λ w. (refl, λ h. h) }

pub Quiet-new_v4 {ℓ} : {E : Type ℓ} → Quiet (new_v4 {E = E})
unfolding new_v4
Quiet-new_v4 = record { keeps = λ w. (refl, λ h. h) }

-- how a `do` block is quiet
pub ruleset quiet = (
  Quiet-pure, Quiet-raise, Quiet-lift, Quiet-if, Quiet-bind, Quiet-map_err, Quiet-query,
  Quiet-execute, Quiet-write, Quiet-now_utc, Quiet-new_v4, refl,
)
