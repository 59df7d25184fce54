-- ===== src/Entity.antt =====
-- crates/central/src/entity: the rows of the central database.
-- A time is a number of nanoseconds since the epoch; a digest or a ciphertext is a list of bytes;
-- an `f64` is its bit pattern, which the model stores and never computes with.
use oidc_agent_compat.Prelude.{ℕ, String, Bool, Option, List}
use oidc_agent_compat.Prelude.Int.{ℤ}

pub record GroupPolicy : Type 0 where
  pub id : String
  pub group_name : String
  pub allowed_models : Option String
  pub allowed_endpoints : Option String
  pub daily_token_quota : Option ℤ
  pub daily_request_quota : Option ℤ
  pub token_saver_enabled : Bool
  pub collapse_repeated_lines : Bool
  pub strip_ansi : Bool
  pub max_input_tokens : Option ℤ
  pub max_token_ttl_seconds : Option ℤ
  pub created_at : ℕ
  pub updated_at : ℕ

pub record McpServerPolicy : Type 0 where
  pub id : String
  pub group_name : String
  pub allowed_tools : Option String
  pub created_at : ℕ
  pub updated_at : ℕ

pub record UsageCounter : Type 0 where
  pub id : String
  pub user_subject : String
  pub group_name : Option String
  pub period_date : ℕ
  pub period_kind : String
  pub request_count : ℤ
  pub token_count : ℤ
  pub cost_usd : ℕ

pub record Token : Type 0 where
  pub id : String
  pub subject : String
  pub issuer : String
  pub email : Option String
  pub display_name : Option String
  pub groups : Option String
  pub identity_id : Option String
  pub label : String
  pub token_hash : List ℕ
  pub created_at : ℕ
  pub expires_at : Option ℕ
  pub last_used_at : Option ℕ
  pub revoked : Bool
  pub device_fingerprint : Option String

pub record Device : Type 0 where
  pub id : String
  pub cert_fingerprint : String
  pub user_subject : String
  pub user_email : Option String
  pub revoked : Bool
  pub created_at : ℕ
  pub last_seen_at : Option ℕ

-- entity/provider.rs, provider_key.rs and provider_key_access.rs
pub record Provider : Type 0 where
  pub id : String
  pub name : String
  pub base_url : String
  pub enabled : Bool
  pub is_default : Bool
  pub models : Option String
  pub created_at : ℕ
  pub updated_at : ℕ

pub record ProviderKey : Type 0 where
  pub id : String
  pub provider_id : String
  pub label : String
  pub priority : ℤ
  pub ciphertext : List ℕ
  pub nonce : List ℕ
  pub key_digest : String
  pub enabled : Bool
  pub created_at : ℕ
  pub updated_at : ℕ

pub record ProviderKeyAccess : Type 0 where
  pub provider_key_id : String
  pub group_name : String

-- entity/mcp_server.rs
pub record McpServer : Type 0 where
  pub id : String
  pub name : String
  pub base_url : String
  pub enabled : Bool
  pub auth_ciphertext : List ℕ
  pub auth_nonce : List ℕ
  pub created_at : ℕ
  pub updated_at : ℕ

-- `AuditEntry` of audit.rs, without the id and the time that `record` adds.
pub record AuditEntry : Type 0 where
  pub device_id : String
  pub user_subject : String
  pub model : Option String
  pub backend : String
  pub status : ℕ
  pub latency_ms : ℕ
  pub stream : Bool
  pub prompt_tokens : Option ℤ
  pub completion_tokens : Option ℤ
  pub total_tokens : Option ℤ
  pub identity_id : Option String
  pub email : Option String
  pub groups : Option String
  pub endpoint : Option String
  pub request_id : Option String
  pub permission_decision : Option String
  pub denial_reason : Option String
  pub cost_usd : Option ℕ
  pub token_saver_applied : Option Bool
  pub tokens_saved : Option ℤ
  pub messages_dropped : Option ℤ
  pub saver_reasons : Option String
  pub mcp_server : Option String
  pub mcp_tool : Option String
  pub mcp_method : Option String
  pub mcp_args_preview : Option String

pub record AuditLog : Type 0 where
  pub id : String
  pub created_at : ℕ
  pub entry : AuditEntry

-- entity/admin_audit_log.rs
pub record AdminAuditLog : Type 0 where
  pub id : String
  pub admin_subject : String
  pub action : String
  pub target : String
  pub payload : Option String
  pub created_at : ℕ
