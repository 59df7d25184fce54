-- ===== src/Proxy/McpHub/Call/Renamed.antt =====
-- The body that `rewrite_tool_name` of crates/central/src/proxy/mcp_hub.rs makes for a server.
use oidc_agent_compat.Prelude.{
  ℕ, String, ◌==◌, eq_iff, eq_refl, ◌≡◌, refl, true, false, Option, some, List, Bool-cases, inl,
  inr, arith,
}
use oidc_agent_compat.External.{
  External, Json, null, boolean, number, string, array, object, Fields, end, field,
}
use oidc_agent_compat.Json.{get, get_field}
use oidc_agent_compat.Proxy.McpHub.Call.{
  insert_field, rename_params, rename_fields, rename_call, or_null_value, rewrite_tool_name,
}

-- Parameters that are an object have the tool as their name, and every other field as before; other
-- parameters are as before.
abbrev pub NamedFor : (tool : String) → Option Json → Option Json → Type 0
NamedFor tool (some (object fs)) after =
    (fs' : Fields) × (after ≡ some (object fs'))
    × (get_field "name" fs' ≡ some (string tool))
    × ((key : String) → (key == "name") ≡ false → get_field key fs' ≡ get_field key fs)
NamedFor tool before after = after ≡ before

-- The parameters name the tool, and every other field of the value is as before.
abbrev pub Renamed : (tool : String) → Json → Json → Type 0
Renamed tool before after =
    NamedFor tool (get "params" before) (get "params" after)
    × ((key : String) → (key == "params") ≡ false → get key after ≡ get key before)

-- the body is the given one with the tool's own name
abbrev pub Sends : External → List ℕ → (tool : String) → List ℕ → Type 0
Sends x raw_body tool body =
    (value : Json) × (body ≡ x.encode_json value)
    × Renamed tool (or_null_value (x.parse_json raw_body)) value

pub get_field-insert_field :
    (key : String) (value : Json) (fs : Fields)
    → get_field key (insert_field key value fs) ≡ some value
unfolding get_field insert_field
get_field-insert_field key value end = ground (arith, eq_refl key)
get_field-insert_field key value (field k v fs) =
    let rest = get_field-insert_field key value fs in
    elim (Bool-cases (k == key)) [ inl h ↦ rw h (rw h refl) | inr h ↦ rw h (rw h rest) ]

differs : (key other k : String) → (other == key) ≡ false → (k == key) ≡ true → (k == other) ≡ false
differs key other k ne h = ground (arith, eq_iff k key, eq_iff k other, eq_iff other key)

pub get_field-insert_other :
    (key : String) (value : Json) (other : String) (fs : Fields)
    → (other == key) ≡ false
    → get_field other (insert_field key value fs) ≡ get_field other fs
unfolding get_field insert_field
get_field-insert_other key value other end ne =
    let apart = differs key other key ne (eq_refl key) in rw apart refl
get_field-insert_other key value other (field k v fs) ne =
    let rest = get_field-insert_other key value other fs ne in
    elim (Bool-cases (k == key)) [
      | inl h ↦ let apart = differs key other k ne h in rw h (rw apart refl)
      | inr h ↦ rw h (rw rest refl)
    ]

rename_params-NamedFor :
    (tool : String) (p : Json) → NamedFor tool (some p) (some (rename_params tool p))
unfolding rename_params
rename_params-NamedFor tool (object fs) = (
  insert_field "name" (string tool) fs,
  refl,
  get_field-insert_field "name" (string tool) fs,
  λ key ne. get_field-insert_other "name" (string tool) key fs ne,
)
rename_params-NamedFor tool null = refl
rename_params-NamedFor tool (boolean b) = refl
rename_params-NamedFor tool (number n) = refl
rename_params-NamedFor tool (string s) = refl
rename_params-NamedFor tool (array items) = refl

rename_fields-NamedFor :
    (tool : String) (fs : Fields)
    → NamedFor tool (get_field "params" fs) (get_field "params" (rename_fields tool fs))
unfolding get_field rename_fields
rename_fields-NamedFor tool end = refl
rename_fields-NamedFor tool (field k v fs) =
    let rest = rename_fields-NamedFor tool fs in
    elim (Bool-cases (k == "params")) [
      | inl h ↦ rw h (rw h (rename_params-NamedFor tool v))
      | inr h ↦ rw h (rw h rest)
    ]

rename_fields-other :
    (tool key : String) (fs : Fields)
    → (key == "params") ≡ false
    → get_field key (rename_fields tool fs) ≡ get_field key fs
unfolding get_field rename_fields
rename_fields-other tool key end ne = refl
rename_fields-other tool key (field k v fs) ne =
    let rest = rename_fields-other tool key fs ne in
    elim (Bool-cases (k == "params")) [
      | inl h ↦ let apart = differs "params" key k ne h in rw h (rw apart refl)
      | inr h ↦ rw h (rw rest refl)
    ]

rename_call-Renamed : (tool : String) (value : Json) → Renamed tool value (rename_call tool value)
unfolding get rename_call
rename_call-Renamed tool (object fs) =
    (rename_fields-NamedFor tool fs, λ key ne. rename_fields-other tool key fs ne)
rename_call-Renamed tool null = (refl, λ key ne. refl)
rename_call-Renamed tool (boolean b) = (refl, λ key ne. refl)
rename_call-Renamed tool (number n) = (refl, λ key ne. refl)
rename_call-Renamed tool (string s) = (refl, λ key ne. refl)
rename_call-Renamed tool (array items) = (refl, λ key ne. refl)

pub rewrite_tool_name-Sends :
    (x : External) (raw_body : List ℕ) (tool : String)
    → Sends x raw_body tool (rewrite_tool_name x raw_body tool)
unfolding rewrite_tool_name
rewrite_tool_name-Sends x raw_body tool =
    (_, refl, rename_call-Renamed tool (or_null_value (x.parse_json raw_body)))
