-- ===== src/Mcp/Redact.antt =====
-- crates/mcp/src/parse.rs: the redaction of tool arguments before they enter the audit log.
pub mod Clean
use oidc_agent_compat.Prelude.{ℕ, String, ◌==◌, Bool, List, [], ◌∷◌, any, if◌then◌else◌}
use oidc_agent_compat.External.{
  Json, null, boolean, number, string, array, object, Items, nil, cons, Fields, end, field,
}

-- `SENSITIVE_ARG_KEYS`
abbrev pub sensitive_arg_keys : List String
sensitive_arg_keys =
    "api_key" ∷ "apikey" ∷ "api-key" ∷ "token" ∷ "access_token" ∷ "refresh_token" ∷ "id_token"
    ∷ "password" ∷ "secret" ∷ "authorization" ∷ "auth" ∷ "bearer" ∷ "credential" ∷ "credentials"
    ∷ "private_key" ∷ "private-key" ∷ "client_secret" ∷ []

unfoldable pub is_sensitive_arg_key : String → Bool
is_sensitive_arg_key key = any (λ k. k == key) sensitive_arg_keys

abbrev pub redacted : Json
redacted = string "[REDACTED]"

-- An object has each key once, so `insert` adds a field behind the others.
unfoldable mutual
  pub redact_sensitive_values : Json → Json
  redact_sensitive_values null = null
  redact_sensitive_values (boolean b) = boolean b
  redact_sensitive_values (number n) = number n
  redact_sensitive_values (string s) = string s
  redact_sensitive_values (array items) = array (redact_items items)
  redact_sensitive_values (object fields) = object (redact_fields fields)

  pub redact_items : Items → Items
  redact_items nil = nil
  redact_items (cons value items) = cons (redact_sensitive_values value) (redact_items items)

  pub redact_fields : Fields → Fields
  redact_fields end = end
  redact_fields (field key value fields) =
      let inner = redact_sensitive_values value in
      let rest = redact_fields fields in
      field key (if is_sensitive_arg_key key then redacted else inner) rest
