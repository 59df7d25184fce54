-- ===== src/Admin/Routes/Audited.antt =====
-- What the admin interface writes to its audit log.
pub mod Changes
use oidc_agent_compat.Prelude.{
  ℕ, String, ◌==◌, ◌≡◌, refl, sym, ◌∙◌, ap, ◌⊎◌, inl, inr, Bool, true, false, List, [], ◌∷◌, ◌++◌,
  Option, none, some, if◌then◌else◌,
}
use oidc_agent_compat.Error.{Error, Result, ok, err}
use oidc_agent_compat.Entity.{AdminAuditLog}
use oidc_agent_compat.External.{External}
use oidc_agent_compat.World.{
  World, Exec, pure, raise, ◌>>=◌, ◌>>◌, continue, attempt, write, execute, now_utc, new_v4,
  map_err,
}
use oidc_agent_compat.Admin.{HandlerError, Handler, or_not_found, or_missing, record_admin_audit}
use oidc_agent_compat.Admin.Policies.{UpsertPolicyRequest, validate_policy}
use oidc_agent_compat.Admin.Routes.{AdminResponse, respond}
use oidc_agent_compat.Admin.Routes.Quiet.{Quiet, Same, quiet}

-- the row for an action of an administrator at the end of the log
abbrev pub Entered : (admin action target : String) → World → World → Type 0
Entered admin action target w v =
    (row : AdminAuditLog) × (v.admin_audit_log ≡ w.admin_audit_log ++ row ∷ [])
    × (row.admin_subject ≡ admin)
    × (row.action ≡ action)
    × (row.target ≡ target)

-- An error leaves the log as it is; a success enters its row, unless a statement was to fail.
abbrev pub Outcome :
    {A : Type 0} → (admin action target : String) → World → Result HandlerError A × World → Type 0
Outcome {A} admin action target w (r, v) =
    ((e : HandlerError) × (r ≡ err e) × (v.admin_audit_log ≡ w.admin_audit_log))
    ⊎ ((a : A) × (r ≡ ok a)
        × (Entered admin action target w v
            ⊎ ((v.admin_audit_log ≡ w.admin_audit_log) × (w.faults ≡ [] → ⊥))))

pub record Audits (admin action target : String) {A : Type 0} (m : Handler A) : Type 0 where
  pub keeps : (w : World) → Outcome admin action target w (m w)

module _ (admin action target : String) where
  Outcome-later :
      {A : Type 0} (w v : World) (r : Result HandlerError A × World)
      → Same w v
      → Outcome admin action target v r
      → Outcome admin action target w r
  Outcome-later w v r (log, f) (inl (e, q, k)) = inl (e, q, k ∙ log)
  Outcome-later w v r (log, f) (inr (a, q, inl (row, k, s, t, u))) =
      inr (a, q, inl (row, k ∙ ap (λ rows. rows ++ row ∷ []) log, s, t, u))
  Outcome-later w v r (log, f) (inr (a, q, inr (k, due))) =
      inr (a, q, inr (k ∙ log, λ h. due (f h)))

  module _ {A B : Type 0} (f : A → Handler B) where
    Outcome-continue :
        (r : Result HandlerError A) (w v : World)
        → Same w v
        → ((a : A) → Audits admin action target (f a))
        → Outcome admin action target w (continue r f v)
    Outcome-continue (err e) w v (log, same) k = inl (e, refl, log)
    Outcome-continue (ok a) w v s k = Outcome-later w v (f a v) s ((k a).keeps v)

    pub Audits-bind :
        (m : Handler A)
        → Quiet m
        → ((a : A) → Audits admin action target (f a))
        → Audits admin action target (m >>= f)
    unfolding ◌>>=◌
    Audits-bind m h k = record { keeps = λ w. Outcome-continue (m w).0 w (m w).1 (h.keeps w) k }

  module _ {A : Type 0} where
    pub Audits-raise : (e : HandlerError) → Audits admin action target (raise {A = A} e)
    unfolding ◌>>=◌
    Audits-raise e = record { keeps = λ w. inl (e, refl, refl) }

    pub Audits-if :
        (b : Bool) (m n : Handler A)
        → Audits admin action target m
        → Audits admin action target n
        → Audits admin action target (if b then m else n)
    Audits-if true m n h k = h
    Audits-if false m n h k = k

    -- the audit entry, with which a handler ends
    Outcome-end :
        (payload : Option String) (a : A) (w : World) (faults : List (Option String))
        → w.faults ≡ faults
        → Outcome admin action target w (
            (record_admin_audit admin action target payload >> pure a)
              (record w { faults = faults }))
    unfolding record_admin_audit attempt write execute now_utc new_v4 ◌>>=◌
    Outcome-end payload a w [] h = inr (a, refl, inl (_, refl, refl, refl, refl))
    Outcome-end payload a w (none ∷ fs) h = inr (a, refl, inl (_, refl, refl, refl, refl))
    Outcome-end payload a w (some m ∷ fs) h =
        inr (a, refl, inr (refl, λ k. let bad = sym h ∙ k in cc bad))

    pub Audits-end :
        (payload : Option String) (a : A)
        → Audits admin action target (record_admin_audit admin action target payload >> pure a)
    Audits-end payload a = record { keeps = λ w. Outcome-end payload a w w.faults refl }

  module _ {A : Type 0} (render : A → AdminResponse) where
    Outcome-render :
        (w : World) (r : Result HandlerError A) (v : World)
        → Outcome admin action target w (r, v)
        → Outcome admin action target w (continue r (λ a. pure (render a)) v)
    unfolding ◌>>=◌
    Outcome-render w r v (inl (e, q, log)) = rw q (inl (e, refl, log))
    Outcome-render w r v (inr (a, q, rest)) = rw q (inr (render a, refl, rest))

    pub respond-Audits :
        (m : Handler A)
        → Audits admin action target m
        → Audits admin action target (respond render m)
    unfolding respond ◌>>=◌
    respond-Audits m h = record { keeps = λ w. Outcome-render w (m w).0 (m w).1 (h.keeps w) }

pub or_missing-Quiet : (message : String) (b : Bool) → Quiet (or_missing message b)
unfolding or_missing
or_missing-Quiet message true = search quiet
or_missing-Quiet message false = search quiet

pub or_not_found-Quiet {ℓ} :
    {A : Type ℓ} (message : String) (o : Option A) → Quiet (or_not_found message o)
unfolding or_not_found
or_not_found-Quiet message none = search quiet
or_not_found-Quiet message (some a) = search quiet

pub validate_policy-Quiet : (body : UpsertPolicyRequest) → Quiet (validate_policy body)
unfolding validate_policy
validate_policy-Quiet body = search quiet

pub ruleset audits = (
  quiet, Audits-bind, Audits-raise, Audits-if, Audits-end, or_missing-Quiet, or_not_found-Quiet,
  validate_policy-Quiet,
)
