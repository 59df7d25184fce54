-- ===== src/Mcp/Parse/Calls.antt =====
-- What crates/mcp/src/parse.rs promises of the calls that it extracts.
use Prim.Native.String.{[] as empty, ◌∷◌ as ◌+>◌, count}
use text.Mathlib.TextLemmas.{length-nil, length-cons}
use oidc_agent_compat.Prelude.{
  ℕ, zero, suc, ◌≤◌, String, ◌==◌, true, not, ◌≡◌, refl, ◌⊎◌, ◌<>◌, inl, inr, Option, none, some,
  List, any, leb, arith, Bool-cases,
}
use oidc_agent_compat.Error.{Result, ok, err}
use oidc_agent_compat.External.{External, Json}
use oidc_agent_compat.Mcp.JsonRpc.{
  JsonRpcRequest, is_some, is_notification, Parsed, parse_request_body,
}
use oidc_agent_compat.Mcp.Redact.{redact_sensitive_values}
use oidc_agent_compat.Mcp.Parse.{
  ToolCall, ToolCallParams, Extracted, client_methods, method_tools_call, args_preview_max_chars,
  take_chars, cap_preview, redact_args, is_client_request, call_params, named_call, other_call,
  extract_request, extract_tool_call,
}

count-take_chars : (n : ℕ) (s : String) → n ≤ count s → count (take_chars n s) ≡ n
unfolding take_chars
count-take_chars zero s h = length-nil
count-take_chars (suc n) empty h = let none_left : suc n ≤ 0 = rw length-nil at h in omega arith
count-take_chars (suc n) (c +> s) h =
    let left : suc n ≤ suc (count s) = rw length-cons at h in
    let rest = count-take_chars n s (omega arith) in rw length-cons (omega arith)

-- A preview has at most 512 characters, or it is 512 characters and the mark of the cut.
abbrev pub IsPreview : String → Type 0
IsPreview preview =
    (count preview ≤ 512) ⊎ ((cut : String) × (count cut ≡ 512) × (preview ≡ cut <> "…[truncated]"))

cap_preview-IsPreview : (s : String) → IsPreview (cap_preview s)
unfolding cap_preview
cap_preview-IsPreview s = elim (Bool-cases (leb (count s) args_preview_max_chars)) [
  | inl short ↦ rw short (inl (ground arith))
  | inr long ↦
      let whole = count-take_chars args_preview_max_chars s (ground arith) in
      rw long (inr (take_chars args_preview_max_chars s, whole, refl))
]

abbrev pub IsCapped : Option String → Type 0
IsCapped none = Unit
IsCapped (some preview) = IsPreview preview

redact_args-IsCapped : (x : External) (arguments : Option Json) → IsCapped (redact_args x arguments)
unfolding redact_args
redact_args-IsCapped x none = tt
redact_args-IsCapped x (some value) =
    cap_preview-IsPreview (x.print_json (redact_sensitive_values value))

-- what holds of a call that is extracted for `server`
abbrev pub IsCall : String → ToolCall → Type 0
IsCall server call =
    (call.server ≡ server)
    × (any (λ m. m == call.method) client_methods ≡ true)
    × (is_some call.id ≡ true)
    × ((call.method == method_tools_call) ≡ not (call.tool == ""))
    × IsCapped call.args_preview

abbrev Extracts : String → Extracted → Type 0
Extracts server (ok (some call)) = IsCall server call
Extracts server (ok none) = Unit
Extracts server (err e) = Unit

client_request :
    (req : JsonRpcRequest)
    → is_client_request req ≡ true
    → (any (λ m. m == req.method) client_methods ≡ true) × (is_some req.id ≡ true)
unfolding is_client_request is_notification
client_request req h = (ground arith, ground arith)

named_call-Extracts :
    (x : External) (server : String) (req : JsonRpcRequest) (params : Result _ ToolCallParams)
    → is_client_request req ≡ true
    → (req.method == method_tools_call) ≡ true
    → Extracts server (named_call x server req params)
unfolding named_call
named_call-Extracts x server req (err e) h k = tt
named_call-Extracts x server req (ok params) h k = elim (Bool-cases (params.name == "")) [
  | inl e ↦ rw e tt
  | inr e ↦
      rw e
        (refl, refl, (client_request req h).1, rw e refl, redact_args-IsCapped x params.arguments)
]

extract_request-Extracts :
    (x : External) (server : String) (parsed : Parsed)
    → Extracts server (extract_request x server parsed)
unfolding extract_request other_call
extract_request-Extracts x server (err e) = tt
extract_request-Extracts x server (ok none) = tt
extract_request-Extracts x server (ok (some req)) = elim (Bool-cases (is_client_request req)) [
  | inl c ↦ elim (Bool-cases (req.method == method_tools_call)) [
    | inl t ↦ rw (c, t) (named_call-Extracts x server req (call_params x req.params) c t)
    | inr t ↦ rw (c, t) (refl, (client_request req c).0, (client_request req c).1, t, tt)
  ]
  | inr c ↦ rw c tt
]

-- A call that is extracted from a body carries the given server, one of the methods of the protocol
-- and an id that is not null; its tool name is empty exactly if its method is not `tools/call`; and
-- its preview of the arguments has at most 512 characters, or is 512 characters and the mark of the
-- cut.
pub extract_tool_call_sound :
    (x : External) (body : List ℕ) (server : String) (call : ToolCall)
    → extract_tool_call x body server ≡ ok (some call)
    → IsCall server call
unfolding extract_tool_call
extract_tool_call_sound x body server call h =
    let sound = extract_request-Extracts x server (parse_request_body x body) in rw h at sound
