-- ===== src/Tests/Data.antt =====
-- A small central database, and concrete functions for what other packages provide.
use oidc_agent_compat.Prelude.{
  ◌<>◌, ℕ, ◌+◌, ◌*◌, String, ◌==◌, true, false, Option, none, some, List, [], ◌∷◌, if◌then◌else◌,
}
use oidc_agent_compat.Prelude.Int.{ℤ, pos}
use oidc_agent_compat.Entity.{
  GroupPolicy, McpServerPolicy, McpServer, Provider, ProviderKey, ProviderKeyAccess, UsageCounter,
  Token, Device,
}
use oidc_agent_compat.Prelude.Utf8.{as_bytes}
use oidc_agent_compat.Error.{ok}
use oidc_agent_compat.External.{
  External, Json, null, boolean, number, string, array, object, Items, nil, cons, Fields, end,
  field,
}
use oidc_agent_compat.World.{World, second}
use oidc_agent_compat.Policy.Store.{PolicyFields}
use oidc_agent_compat.Token.{MintRequest}
use oidc_agent_compat.Proxy.Http.{VerifiedRelayIdentity, Request, Next, other}

-- JSON arrays of the texts that occur
abbrev pub parse : String → Option (List String)
parse s =
    if s == "[\"eng\"]"
    then some ("eng" ∷ [])
    else if s == "[\"gpt-4\"]"
    then some ("gpt-4" ∷ [])
    else if s == "[\"files:read\"]"
    then some ("files:read" ∷ [])
    else none

abbrev thirty_one : List ℕ
thirty_one =
    0 ∷ 0 ∷ 0 ∷ 0 ∷ 0 ∷ 0 ∷ 0 ∷ 0 ∷ 0 ∷ 0 ∷ 0 ∷ 0 ∷ 0 ∷ 0 ∷ 0 ∷ 0 ∷ 0 ∷ 0 ∷ 0 ∷ 0 ∷ 0 ∷ 0 ∷ 0 ∷ 0
    ∷ 0 ∷ 0 ∷ 0 ∷ 0 ∷ 0 ∷ 0 ∷ 0 ∷ []

-- 32 bytes, which differ for the keys that occur
abbrev pub digest : String → List ℕ
digest s = (if s == "oac_abc" then 1 else if s == "oac_def" then 2 else 3) ∷ thirty_one

abbrev twelve : List ℕ
twelve = 0 ∷ 0 ∷ 0 ∷ 0 ∷ 0 ∷ 0 ∷ 0 ∷ 0 ∷ 0 ∷ 0 ∷ 0 ∷ 0 ∷ []

abbrev chat_json : Json
chat_json = object (field "model" (string "gpt-4") end)

-- a printer without spaces; the texts that occur need no escapes
abbrev mutual
  print : Json → String
  print null = "null"
  print (boolean true) = "true"
  print (boolean false) = "false"
  print (number n) = n
  print (string s) = "\"" <> s <> "\""
  print (array items) = "[" <> print_items items <> "]"
  print (object fields) = "{" <> print_fields fields <> "}"

  print_items : Items → String
  print_items nil = ""
  print_items (cons v nil) = print v
  print_items (cons v (cons w more)) = print v <> "," <> print_items (cons w more)

  print_fields : Fields → String
  print_fields end = ""
  print_fields (field k v end) = "\"" <> k <> "\":" <> print v
  print_fields (field k v (field l w more)) =
      "\"" <> k <> "\":" <> print v <> "," <> print_fields (field l w more)

abbrev pub env : External
env = record {
  parse_strings = parse;
  print_strings = λ texts. "[]";
  sha256 = digest;
  parse_json = λ bytes. some chat_json;
  parse_text = λ text. ok chat_json;
  shape_error = λ value. "missing field";
  print_json = print;
  encode_json = λ value. 0 ∷ [];
  encrypt = λ nonce text. some (as_bytes text);
  decrypt = λ nonce bytes. some bytes;
  header_name = λ s. some s;
  header_value = λ s. some s;
  as_f32 = λ cost. cost;
  add_cost = λ a b. a + b;
  as_i64 = λ text. some (pos 7);
}

abbrev pub policy_row : (id group_name : String) → Option String → Option ℤ → Option ℤ → GroupPolicy
policy_row id group_name models quota budget = record {
  id = id;
  group_name = group_name;
  allowed_models = models;
  allowed_endpoints = none;
  daily_token_quota = some (pos 1_000);
  daily_request_quota = quota;
  token_saver_enabled = true;
  collapse_repeated_lines = true;
  strip_ansi = false;
  max_input_tokens = budget;
  max_token_ttl_seconds = some (pos 86_400);
  created_at = 0;
  updated_at = 0;
}

abbrev pub eng_row : GroupPolicy
eng_row = policy_row "p1" "eng" (some "[\"gpt-4\"]") (some (pos 10)) (some (pos 4_000))

abbrev pub ops_row : GroupPolicy
ops_row = policy_row "p2" "ops" none none none

abbrev pub token_row : (id subject : String) → (hash : List ℕ) → Option ℕ → Token
token_row id subject hash expires_at = record {
  id = id;
  subject = subject;
  issuer = "https://idp";
  email = none;
  display_name = none;
  groups = some "[\"eng\"]";
  identity_id = none;
  label = "laptop";
  token_hash = hash;
  created_at = 1_000_000 * second;
  expires_at = expires_at;
  last_used_at = none;
  revoked = false;
  device_fingerprint = some "fp";
}

abbrev pub ann_token : Token
ann_token = token_row "t1" "ann" (digest "oac_abc") none

abbrev pub bob_token : Token
bob_token = token_row "t2" "bob" (digest "oac_def") (some (1_000_100 * second))

abbrev pub ann_counter : UsageCounter
ann_counter = record {
  id = "u1";
  user_subject = "ann";
  group_name = none;
  period_date = 11;
  period_kind = "daily";
  request_count = pos 9;
  token_count = pos 500;
  cost_usd = 0;
}

abbrev pub ann_device : Device
ann_device = record {
  id = "d1";
  cert_fingerprint = "ann";
  user_subject = "ann";
  user_email = none;
  revoked = false;
  created_at = 0;
  last_seen_at = none;
}

abbrev pub bob_device : Device
bob_device = record {
  id = "d2";
  cert_fingerprint = "bob";
  user_subject = "bob";
  user_email = none;
  revoked = true;
  created_at = 0;
  last_seen_at = none;
}

abbrev pub tools_row : McpServerPolicy
tools_row = record {
  id = "m1";
  group_name = "eng";
  allowed_tools = some "[\"files:read\"]";
  created_at = 0;
  updated_at = 0;
}

abbrev pub files_server : McpServer
files_server = record {
  id = "files";
  name = "Files";
  base_url = "https://files.example/mcp/";
  enabled = true;
  auth_ciphertext = [];
  auth_nonce = twelve;
  created_at = 0;
  updated_at = 0;
}

abbrev pub open_provider : Provider
open_provider = record {
  id = "openai";
  name = "OpenAI";
  base_url = "https://api.openai.com";
  enabled = true;
  is_default = true;
  models = none;
  created_at = 0;
  updated_at = 0;
}

abbrev pub provider_key : (id : String) → ℤ → ProviderKey
provider_key id priority = record {
  id = id;
  provider_id = "openai";
  label = id;
  priority = priority;
  ciphertext = 115 ∷ 107 ∷ [];
  nonce = twelve;
  key_digest = "";
  enabled = true;
  created_at = 0;
  updated_at = 0;
}

abbrev pub test_key : ProviderKey
test_key = provider_key "k1" (pos 5)

abbrev pub eng_key : ProviderKey
eng_key = provider_key "k2" (pos 1)

abbrev pub eng_access : ProviderKeyAccess
eng_access = record { provider_key_id = "k2"; group_name = "eng" }

abbrev pub central : World
central = record {
  group_policies = eng_row ∷ ops_row ∷ [];
  mcp_server_policies = tools_row ∷ [];
  mcp_servers = files_server ∷ [];
  providers = open_provider ∷ [];
  provider_keys = test_key ∷ eng_key ∷ [];
  provider_key_access = eng_access ∷ [];
  usage_counters = ann_counter ∷ [];
  tokens = ann_token ∷ bob_token ∷ [];
  devices = ann_device ∷ bob_device ∷ [];
  audit_log = [];
  admin_audit_log = [];
  faults = [];
  now = 1_000_010 * second;
  uuids = λ n. "uuid";
  secrets = λ n. "new";
  nonces = λ n. twelve;
  drawn = 0;
}

abbrev pub fields : PolicyFields
fields = record {
  allowed_models = some "[\"gpt-4\"]";
  allowed_endpoints = none;
  daily_token_quota = none;
  daily_request_quota = some (pos 5);
  token_saver_enabled = false;
  max_input_tokens = none;
  collapse_repeated_lines = false;
  strip_ansi = false;
  max_token_ttl_seconds = none;
}

abbrev pub mint : MintRequest
mint = record {
  subject = "ann";
  issuer = "https://idp";
  email = none;
  display_name = none;
  groups = some "[\"eng\"]";
  identity_id = none;
  label = "desktop";
  expires_at = some (1_000_100 * second);
  device_fingerprint = none;
}

abbrev pub ann : VerifiedRelayIdentity
ann = record {
  subject = "ann";
  email = none;
  identity_id = none;
  groups = some "[\"eng\"]";
  request_id = none;
  token_id = some "t1";
  created_at = some (1_000_000 * second);
}

abbrev pub chat : Option VerifiedRelayIdentity → Request
chat identity = record {
  method = "POST";
  path = "/v1/chat/completions";
  headers =
      record { name = "authorization"; text = some "Bearer oac_abc" }
      ∷ record { name = "x-oac-device-fingerprint"; text = some "fp" }
      ∷ [];
  body = some (123 ∷ []);
  identity = identity;
  decision = none;
  grant = none;
  mcp_grant = none;
}

abbrev pub handler : Next
handler request w = (record { status = 200; retry_after = none; body = other "ok" }, w)
