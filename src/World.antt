-- ===== src/World.antt =====
-- What the central proxy's handlers act on: the tables of its database, the clock, the supply of
-- random identifiers and keys, and the failures that the database will report.
--
-- Each statement that the program sends takes one item of `faults`: `some e` makes it fail with the
-- message `e` and change nothing, `none` lets it run, and when the list is used up no statement
-- fails any more. A handler reads one time throughout.
pub mod Cases
use oidc_agent_compat.Prelude.{ℕ, suc, ◌*◌, ◌/◌, String, ◌<>◌, List, [], ◌∷◌, Option, none, some}
use oidc_agent_compat.Error.{Error, database, Result, ok, err}
use oidc_agent_compat.Entity.{
  GroupPolicy, McpServerPolicy, McpServer, Provider, ProviderKey, ProviderKeyAccess, UsageCounter,
  Token, Device, AuditLog, AdminAuditLog,
}

pub record World : Type 0 where
  pub group_policies : List GroupPolicy
  pub mcp_server_policies : List McpServerPolicy
  pub mcp_servers : List McpServer
  pub providers : List Provider
  pub provider_keys : List ProviderKey
  pub provider_key_access : List ProviderKeyAccess
  pub usage_counters : List UsageCounter
  pub tokens : List Token
  pub devices : List Device
  pub audit_log : List AuditLog
  pub admin_audit_log : List AdminAuditLog
  pub faults : List (Option String)
  pub now : ℕ
  pub uuids : ℕ → String
  pub secrets : ℕ → String
  pub nonces : ℕ → List ℕ
  pub drawn : ℕ

-- An asynchronous method that may fail: what it wrote before an error stays written.
abbrev pub Exec {ℓ κ} : Type ℓ → Type κ → Type (ℓ ⊔ κ)
Exec E A = World → Result E A × World

module _ {ℓ κ} {E : Type ℓ} {A : Type κ} where
  pub pure : A → Exec E A
  pure a w = (ok a, w)

  pub raise : E → Exec E A
  raise e w = (err e, w)

  pub lift : Result E A → Exec E A
  lift r w = (r, w)

module _ {ℓ κ μ} {E : Type ℓ} {A : Type κ} {B : Type μ} where
  abbrev pub continue : Result E A → (A → Exec E B) → Exec E B
  continue (ok a) f w = f a w
  continue (err e) f w = (err e, w)

  infixl 10 ◌>>=◌ ◌>>◌
  -- opening this opens `pure`, `raise` and `lift` too
  unfoldable pub ◌>>=◌ : Exec E A → (A → Exec E B) → Exec E B
  unfolding pure raise lift
  ◌>>=◌ m f w = let (r, v) = m w in continue r f v

  abbrev pub ◌>>◌ : Exec E A → Exec E B → Exec E B
  m >> n = m >>= λ _. n

module _ {ℓ μ κ} {E : Type ℓ} {F : Type μ} {A : Type κ} where
  abbrev to_ok : Result E A → Result F (Result E A)
  to_ok r = ok r

  -- `match action.await`: the error becomes a value.
  unfoldable pub attempt : Exec E A → Exec F (Result E A)
  attempt m w = let (r, v) = m w in (to_ok r, v)

  abbrev pub relabel : (E → F) → Result E A → Result F A
  relabel f (ok a) = ok a
  relabel f (err e) = err (f e)

  -- `action.await.map_err(f)`
  unfoldable pub map_err : (E → F) → Exec E A → Exec F A
  map_err f m w = let (r, v) = m w in (relabel f r, v)

module _ {κ} {A : Type κ} where
  abbrev pub answer :
      List (Option String) → String → (World → A × World) → World → Result Error A × World
  answer [] label run w = let (a, v) = run (record w { faults = [] }) in (ok a, v)
  answer (none ∷ later) label run w = let (a, v) = run (record w { faults = later }) in (ok a, v)
  answer (some e ∷ later) label run w =
      (err (database (label <> ": " <> e)), record w { faults = later })

  -- A statement that writes; `label` is the context that the program puts before the message.
  unfoldable pub execute : String → (World → A × World) → Exec Error A
  execute label run w = answer w.faults label run w

  -- A statement that reads.
  unfoldable pub query : String → (World → A) → Exec Error A
  unfolding execute
  query label read = execute label (λ w. (read w, w))

-- A statement whose result the program does not look at.
unfoldable pub write : String → (World → World) → Exec Error (Unit {0})
unfolding execute
write label change = execute label (λ w. (tt, change w))

-- `time_util::now_utc()`
unfoldable pub now_utc {ℓ} : {E : Type ℓ} → Exec E ℕ
now_utc w = (ok w.now, w)

-- `Uuid::new_v4()`
unfoldable pub new_v4 {ℓ} : {E : Type ℓ} → Exec E String
new_v4 w = (ok (w.uuids w.drawn), record w { drawn = suc w.drawn })

abbrev pub second : ℕ
second = 1_000_000_000

-- A time that is written through `time_util::format_time` loses its fraction of a second.
unfoldable pub format_time : ℕ → ℕ
format_time t = t / second * second
