-- ===== src/Mcp/Redact/Clean.antt =====
-- What the redaction of crates/mcp/src/parse.rs leaves visible.
use oidc_agent_compat.Prelude.{
  ◌==◌, eq_refl, eq_iff, ◌≡◌, refl, sym, ap, Bool, true, false, ◌&&◌, arith, if◌then◌else◌,
}
use oidc_agent_compat.External.{
  Json, null, boolean, number, string, array, object, Items, nil, cons, Fields, end, field,
}
use oidc_agent_compat.Mcp.Redact.{
  is_sensitive_arg_key, redacted, redact_sensitive_values, redact_items, redact_fields,
}

-- the value is the text that stands for a secret
pub is_redacted : Json → Bool
is_redacted (string s) = s == "[REDACTED]"
is_redacted _ = false

-- no object, at any depth, shows a value under a sensitive key
mutual
  pub shows_no_secret : Json → Bool
  shows_no_secret (array items) = items_show_no_secret items
  shows_no_secret (object fields) = fields_show_no_secret fields
  shows_no_secret _ = true

  pub items_show_no_secret : Items → Bool
  items_show_no_secret nil = true
  items_show_no_secret (cons value items) = shows_no_secret value && items_show_no_secret items

  pub fields_show_no_secret : Fields → Bool
  fields_show_no_secret end = true
  fields_show_no_secret (field key value fields) =
      (if is_sensitive_arg_key key then is_redacted value else shows_no_secret value)
      && fields_show_no_secret fields

-- a field that was redacted
field_safe :
    (secret : Bool) (inner : Json)
    → shows_no_secret inner ≡ true
    → (if secret
        then is_redacted (if secret then redacted else inner)
        else shows_no_secret (if secret then redacted else inner))
      ≡ true
unfolding is_redacted
field_safe true inner h = eq_refl "[REDACTED]"
field_safe false inner h = h

mutual
  unfolding redact_sensitive_values shows_no_secret

  values_safe : (v : Json) → shows_no_secret (redact_sensitive_values v) ≡ true
  values_safe null = refl
  values_safe (boolean b) = refl
  values_safe (number n) = refl
  values_safe (string s) = refl
  values_safe (array items) = items_safe items
  values_safe (object fields) = fields_safe fields

  items_safe : (xs : Items) → items_show_no_secret (redact_items xs) ≡ true
  items_safe nil = refl
  items_safe (cons v xs) = ground (arith, values_safe v, items_safe xs)

  fields_safe : (fs : Fields) → fields_show_no_secret (redact_fields fs) ≡ true
  fields_safe end = refl
  fields_safe (field key v fs) =
      rw (field_safe (is_sensitive_arg_key key) (redact_sensitive_values v) (values_safe v))
        (fields_safe fs)

is_redacted_lem : (v : Json) → is_redacted v ≡ true → v ≡ redacted
unfolding is_redacted
is_redacted_lem (string s) h = ap string ((eq_iff s "[REDACTED]").0 h)
is_redacted_lem null h = cc h
is_redacted_lem (boolean b) h = cc h
is_redacted_lem (number n) h = cc h
is_redacted_lem (array items) h = cc h
is_redacted_lem (object fields) h = cc h

field_kept :
    (secret : Bool) (v inner : Json)
    → (if secret then is_redacted v else shows_no_secret v) ≡ true
    → (shows_no_secret v ≡ true → inner ≡ v)
    → (if secret then redacted else inner) ≡ v
field_kept true v inner h same = sym (is_redacted_lem v h)
field_kept false v inner h same = same h

and_true : (a b : Bool) → (a && b) ≡ true → (a ≡ true) × (b ≡ true)
and_true true b h = (refl, h)
and_true false b h = cc h

mutual
  unfolding redact_sensitive_values shows_no_secret

  values_kept : (v : Json) → shows_no_secret v ≡ true → redact_sensitive_values v ≡ v
  values_kept null h = refl
  values_kept (boolean b) h = refl
  values_kept (number n) h = refl
  values_kept (string s) h = refl
  values_kept (array items) h = ap array (items_kept items h)
  values_kept (object fields) h = ap object (fields_kept fields h)

  items_kept : (xs : Items) → items_show_no_secret xs ≡ true → redact_items xs ≡ xs
  items_kept nil h = refl
  items_kept (cons v xs) h =
      let (first, rest) = and_true (shows_no_secret v) (items_show_no_secret xs) h in
      rw (values_kept v first, items_kept xs rest) refl

  fields_kept : (fs : Fields) → fields_show_no_secret fs ≡ true → redact_fields fs ≡ fs
  fields_kept end h = refl
  fields_kept (field key v fs) h =
      let (first, rest) = and_true _ (fields_show_no_secret fs) h in
      rw
        (
          field_kept (is_sensitive_arg_key key) v (redact_sensitive_values v) first (values_kept v),
          fields_kept fs rest,
        )
        refl

-- Whatever the arguments are, the redacted ones show no value under a sensitive key at any depth,
-- and arguments that show none are left as they are.
pub redact_sensitive_values_lem :
    (v : Json)
    → (shows_no_secret (redact_sensitive_values v) ≡ true)
      × (shows_no_secret v ≡ true → redact_sensitive_values v ≡ v)
redact_sensitive_values_lem v = (values_safe v, values_kept v)
