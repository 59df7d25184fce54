-- ===== src/External.antt =====
-- What the central proxy takes from other packages, as operations that the model is given.
use oidc_agent_compat.Prelude.{ℕ, String, Bool, List, Option}
use oidc_agent_compat.Prelude.Int.{ℤ}
use oidc_agent_compat.Error.{Result}

-- `serde_json::Value`; a number is its printed text
mutual
  pub data Json : Type 0 where
    null : Json
    boolean : Bool → Json
    number : String → Json
    string : String → Json
    array : Items → Json
    object : Fields → Json

  pub data Items : Type 0 where
    nil : Items
    cons : Json → Items → Items

  pub data Fields : Type 0 where
    end : Fields
    field : String → Json → Fields → Fields

pub record External : Type 0 where
  -- `serde_json::from_str::<Vec<String>>`; `none` is an error
  pub parse_strings : String → Option (List String)
  -- `serde_json::to_string` of a list of texts
  pub print_strings : List String → String
  -- `Sha256::digest` of the text's bytes
  pub sha256 : String → List ℕ
  -- `serde_json::from_slice::<Value>`
  pub parse_json : List ℕ → Option Json
  -- `serde_json::from_str::<Value>`, with the message of an error
  pub parse_text : String → Result String Json
  -- the message of `serde_json::from_value` for a value that does not have the type's fields
  pub shape_error : Json → String
  -- `serde_json::to_string` and `serde_json::to_vec` of a value, whose keys are texts, so that neither
  -- fails
  pub print_json : Json → String
  pub encode_json : Json → List ℕ
  -- AES-256-GCM under the server's key: from the nonce and the text, or the ciphertext
  pub encrypt : List ℕ → String → Option (List ℕ)
  pub decrypt : List ℕ → List ℕ → Option (List ℕ)
  -- `HeaderName::from_bytes` and `HeaderValue::from_str`
  pub header_name : String → Option String
  pub header_value : String → Option String
  -- `cost as f32`, and the sum of two costs as SQLite computes it
  pub as_f32 : ℕ → ℕ
  pub add_cost : ℕ → ℕ → ℕ
  -- `Value::as_i64` of a number that is printed so
  pub as_i64 : String → Option ℤ
