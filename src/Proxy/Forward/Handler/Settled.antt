-- ===== src/Proxy/Forward/Handler/Settled.antt =====
-- What the handler of forward.rs leaves in the counters and in the audit log.
use oidc_agent_compat.Prelude.{
  ℕ, suc, String, ◌==◌, ◌≡◌, refl, sym, ap, Bool, true, false, Option, none, some, List, [], ◌∷◌,
  ◌++◌, if◌then◌else◌, Bool-cases, inl, inr, arith, eq_iff, ◌&&◌, find, find-update,
  find-update-none, find-update_other, Option-cases,
}
use mathlib.Core.Path.{subst}
use oidc_agent_compat.Prelude.Int.{pos, ◌+ℤ◌, ◌-ℤ◌, ◌≤ℤ◌, ltb_ℤ}
use oidc_agent_compat.Error.{Error, Result, ok, err}
use oidc_agent_compat.Entity.{AuditEntry, AuditLog, UsageCounter}
use oidc_agent_compat.External.{External}
use oidc_agent_compat.World.{World, ◌>>=◌, attempt, execute, write, now_utc, new_v4, format_time}
use oidc_agent_compat.World.Cases.{with_faults}
use oidc_agent_compat.Audit.{record_entry}
use oidc_agent_compat.Float.{Float}
use oidc_agent_compat.Pricing.{PriceTable, or_zero}
use oidc_agent_compat.Usage.{is_current, release_one, increment, release_request, released}
use oidc_agent_compat.Usage.Reserve.{count_of, requests, is_current_other}
use oidc_agent_compat.Usage.Count.{requests-released}
use oidc_agent_compat.Usage.Increment.{tokens_used, increment_lem}
use oidc_agent_compat.Proxy.Http.{VerifiedRelayIdentity, PermissionDecision, Request}
use oidc_agent_compat.Proxy.Forward.{TokenUsage}
use oidc_agent_compat.Proxy.Forward.Retry.{ProviderClient}
use oidc_agent_compat.Proxy.Forward.Accounting.{
  AccountingContext, outcome_entry, cost_of, count_outcome, record_request_outcome,
}
use oidc_agent_compat.Proxy.Forward.Handler.{
  ForwardOutcome, context_of, bad_gateway, release_reserved, Handled, account, forward_request,
  proxy_handler,
}

-- the row that the audit log gets
abbrev pub audit_row : AuditEntry → World → AuditLog
audit_row entry w = record { id = w.uuids w.drawn; created_at = format_time w.now; entry = entry }

-- whether the quota of requests already holds a reservation for the request
abbrev pub is_reserved : Option PermissionDecision → Bool
is_reserved none = false
is_reserved (some d) = d.request_reserved

-- A request without a reservation counts one more, and one with a reservation is not taken back.
abbrev pub Made : Bool → String → World → World → Type 0
Made false user w v = requests user v ≡ requests user w +ℤ pos 1
Made true user w v = requests user w ≤ℤ requests user v

-- the request and its tokens are counted for its user, if it is known
abbrev pub Counted :
    Option VerifiedRelayIdentity → TokenUsage → (reserved : Bool) → World → World → Type 0
Counted none usage reserved w v = v.usage_counters ≡ w.usage_counters
Counted (some i) usage reserved w v =
    Made reserved i.subject w v
    × (tokens_used i.subject v ≡ tokens_used i.subject w +ℤ or_zero usage.total)
    × ((other : String) → (i.subject == other) ≡ false → requests other v ≡ requests other w)

-- The user has one request less, if any is counted; nobody's tokens, no other user's requests and no
-- other table change.
abbrev pub Released : String → World → World → Type 0
Released user w v =
    (requests user v
      ≡ (if ltb_ℤ (pos 0) (requests user w) then requests user w -ℤ pos 1 else requests user w))
    × ((other : String) → (user == other) ≡ false → requests other v ≡ requests other w)
    × ((other : String) → tokens_used other v ≡ tokens_used other w)
    × (v ≡ record w { usage_counters = v.usage_counters })

-- what becomes of the reservation of a request that failed
abbrev pub TakenBack : Option VerifiedRelayIdentity → (reserved : Bool) → World → World → Type 0
TakenBack (some i) true w v = Released i.subject w v
TakenBack _ _ w v = v ≡ w

released_lem : (user : String) (w : World) → Released user w (released user w)
released_lem user w =
    let mine = λ (r : UsageCounter). is_current user w r && ltb_ℤ (pos 0) r.request_count in
    (
      requests-released user w,
      (λ other ne. ap count_of (
          find-update_other (is_current other w) mine release_one w.usage_counters (λ r. refl)
            (λ r h. is_current_other other user w r ne (ground (arith, h))))),
      (λ other. elim (Option-cases (find (is_current other w) w.usage_counters)) [
        | inl missing ↦
            rw
              (
                missing,
                find-update-none (is_current other w) mine release_one (λ r. refl) w.usage_counters
                    missing,
              )
              refl
        | inr (r, found) ↦
            rw
              (
                found,
                find-update (is_current other w) mine release_one (λ r. refl) w.usage_counters
                    found,
              )
              (elim (Bool-cases (mine r)) [ inl h ↦ rw h refl | inr h ↦ rw h refl ])
      ]),
      refl,
    )

abbrev if_reserved : Option VerifiedRelayIdentity → Option PermissionDecision → World → World
if_reserved (some i) (some d) w = if d.request_reserved then released i.subject w else w
if_reserved _ _ w = w

-- a subject that is not the given one
other_than : (s : String) → (o : String) × ((s == o) ≡ false)
other_than s = elim (Bool-cases (s == "")) [
  | inr n ↦ ("", n)
  | inl e ↦ ("a", rw ((eq_iff s "").0 e) refl)
]

release_reserved_lem :
    (o : Option VerifiedRelayIdentity) (d : Option PermissionDecision) (w : World)
    → release_reserved o d (with_faults w []) ≡ (ok tt, if_reserved o d (with_faults w []))
unfolding release_reserved release_request attempt execute write ◌>>=◌
release_reserved_lem none d w = refl
release_reserved_lem (some i) none w = refl
release_reserved_lem (some i) (some d) w = elim (Bool-cases d.request_reserved) [
  | inl e ↦ rw e refl
  | inr n ↦ rw n refl
]

module _ (x : External) (f : Float) (prices : PriceTable) where
  count_outcome_lem :
      (cost : ℕ) (usage : TokenUsage) (o : Option VerifiedRelayIdentity) (w : World)
      → let v = (count_outcome x f prices cost usage o (with_faults w [])).1 in
        Counted o usage false w v
        × (v.audit_log ≡ w.audit_log)
        × ((count_outcome x f prices cost usage o (with_faults w [])).0 ≡ ok tt)
  unfolding count_outcome attempt increment execute write new_v4 ◌>>=◌
  count_outcome_lem cost usage none w = (refl, refl, refl)
  count_outcome_lem cost usage (some i) w =
      let count = λ (other : String).
        increment_lem x i.subject other i.groups (pos 1) (or_zero usage.total) cost
          (with_faults w []) refl in
      let (o, ne) = other_than i.subject in
      let (made, spent, rest) = count o ne in
      ((made, spent, λ other ne'. (count other ne').2), refl, refl)

  -- the audit entry leaves the counters alone
  recounted :
      (o : Option VerifiedRelayIdentity) (usage : TokenUsage) (w v : World) (drawn : ℕ)
      (rows : List AuditLog)
      → Counted o usage false (record w { drawn = drawn; audit_log = rows }) v
      → Counted o usage false w v
  recounted none usage w v drawn rows c = c
  recounted (some i) usage w v drawn rows c = c

  record_request_outcome_lem :
      (context : AccountingContext) (usage : TokenUsage) (stream : Bool) (w : World)
      → let v = (record_request_outcome x f prices context usage stream (with_faults w [])).1 in
        Counted context.identity usage false w v
        × (v.audit_log
            ≡ w.audit_log ++ audit_row (outcome_entry x f prices context usage stream) w ∷ [])
        × ((record_request_outcome x f prices context usage stream (with_faults w [])).0 ≡ ok tt)
  unfolding record_request_outcome record_entry attempt execute write new_v4 now_utc ◌>>=◌
  record_request_outcome_lem context usage stream w =
      let row = audit_row (outcome_entry x f prices context usage stream) w in
      let u = record w { drawn = suc w.drawn; audit_log = w.audit_log ++ row ∷ [] } in
      let (counted, kept, done) =
        count_outcome_lem (cost_of x f prices context usage) usage context.identity u in
      (
        recounted context.identity usage w
            (record_request_outcome x f prices context usage stream (with_faults w [])).1 u.drawn
            u.audit_log counted,
        kept,
        done,
      )

  unmoved :
      (o : Option VerifiedRelayIdentity) (usage : TokenUsage) (reserved : Bool) (w v : World)
      → Counted o usage false w v
      → Counted o usage reserved (with_faults w []) v
  unmoved none usage reserved w v c = c
  unmoved (some i) usage false w v c = c
  unmoved (some i) usage true w v (made, spent, rest) = (ground (arith, made), spent, rest)

  taken_back :
      (o : Option VerifiedRelayIdentity) (d : Option PermissionDecision) (w : World)
      → TakenBack o (is_reserved d) w (if_reserved o d w)
  taken_back none none w = refl
  taken_back none (some d) w = refl
  taken_back (some i) none w = refl
  taken_back (some i) (some d) w = elim (Bool-cases d.request_reserved) [
    | inl e ↦ rw e (released_lem i.subject w)
    | inr e ↦ rw e refl
  ]

  module _ (client : ProviderClient) (elapsed_ms : ℕ) where
    -- what became of a request, by what the exchange gave
    abbrev pub Settles :
        Request → Result Error ForwardOutcome → World → Result Error Handled × World → Type 0
    Settles request (err e) w (r, v) =
        (r ≡ ok (bad_gateway, none)) × TakenBack request.identity (is_reserved request.decision) w v
    Settles request (ok outcome) w (r, v) =
        if outcome.stream
        then (r ≡ ok (outcome.resp, some (context_of x f prices client elapsed_ms request outcome)))
          × (v ≡ w)
        else (r ≡ ok (outcome.resp, none))
          × Counted request.identity outcome.usage (is_reserved request.decision) w v
          × (v.audit_log
              ≡ w.audit_log
                ++ audit_row
                    (outcome_entry x f prices
                      (context_of x f prices client elapsed_ms request outcome) outcome.usage false)
                    w
                  ∷ [])

    account-Settles :
        (request : Request) (r : Result Error ForwardOutcome) (w : World)
        → Settles request r
            (with_faults w [])
            (account x f prices client elapsed_ms request r (with_faults w []))
    unfolding account context_of ◌>>=◌
    account-Settles request (err e) w =
        rw (release_reserved_lem request.identity request.decision w)
          (refl, taken_back request.identity request.decision (with_faults w []))
    account-Settles request (ok outcome) w = elim (Bool-cases outcome.stream) [
      | inl s ↦ rw s (refl, refl)
      | inr n ↦
          let context = context_of x f prices client elapsed_ms request outcome in
          let (counted, logged, done) = record_request_outcome_lem context outcome.usage false w in
          rw (n, done)
            (
              refl,
              unmoved request.identity outcome.usage (is_reserved request.decision) w
                  (record_request_outcome x f prices context outcome.usage false
                    (with_faults w [])).1
                  counted,
              logged,
            )
    ]

    -- Once the exchange with the provider is over and the database answers from then on, the handler
    -- ends: if the exchange failed, with 502, one request less for the user if the request was
    -- reserved (and any is counted), and nothing else changed; for a stream, with the provider's
    -- response and its accounting left to do; else with that response, the reported tokens more for
    -- the user, one request more if it was not reserved and not fewer if it was, no other user's
    -- requests changed, and the entry of this outcome in the audit log.
    pub proxy_handler-Settles :
        (request : Request) (w : World)
        → let (r, v) = forward_request x f prices client elapsed_ms request w in
          v.faults ≡ [] → Settles request r v (proxy_handler x f prices client elapsed_ms request w)
    unfolding proxy_handler attempt ◌>>=◌
    proxy_handler-Settles request w answers =
        let (r, v) = forward_request x f prices client elapsed_ms request w in
        let same = ap (λ (fs : List (Option String)). with_faults v fs) answers in
        subst
          (λ (u : World). Settles request r u (account x f prices client elapsed_ms request r u))
          (sym same) (account-Settles request r v)
