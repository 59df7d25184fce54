-- ===== src/Proxy/Forward/Stream.antt =====
-- crates/central/src/proxy/forward.rs: the token usage that is read from a stream while it is passed
-- on.
pub mod Chunks
use mathlib.Core.Option as Opt
use Prim.Native.Char.{Char}
use Prim.Native.String.{[] as empty, ◌∷◌ as ◌+>◌}
use text.Mathlib.Text.{starts_with}
use oidc_agent_compat.Prelude.{
  ℕ, zero, suc, String, ◌==◌, Bool, true, false, not, Option, none, some, List, [], ◌∷◌, ◌++◌, eqb,
  length, if◌then◌else◌,
}
use oidc_agent_compat.Prelude.Text.{trim}
use oidc_agent_compat.Prelude.Utf8.{from_utf8}
use oidc_agent_compat.Error.{Result, ok, err}
use oidc_agent_compat.External.{External, Json}
use oidc_agent_compat.Proxy.Forward.{TokenUsage, extract_token_usage_from_value}

-- `trim_start_matches("data:")`: as often as the text starts with it
unfoldable pub trim_data : String → String
trim_data (a +> (b +> (c +> (d +> (e +> s))))) =
    let rest = trim_data s in
    if starts_with (a +> (b +> (c +> (d +> (e +> s))))) "data:"
    then rest
    else a +> (b +> (c +> (d +> (e +> s))))
trim_data s = s

-- what is kept: a usage with a total replaces the one that was found before
unfoldable pub keep_usage : TokenUsage → Option TokenUsage → Option TokenUsage
keep_usage extracted usage = elim extracted.total [ none ↦ usage | some t ↦ some extracted ]

unfoldable pub usage_of_data : External → Result String Json → Option TokenUsage → Option TokenUsage
unfolding keep_usage extract_token_usage_from_value
usage_of_data x (err e) usage = usage
usage_of_data x (ok value) usage = keep_usage (extract_token_usage_from_value x value) usage

unfoldable pub usage_of_text : External → String → Option TokenUsage → Option TokenUsage
unfolding usage_of_data trim_data trim
usage_of_text x line usage =
    let line' = trim line in
    let text = trim (trim_data line') in
    if not (starts_with line' "data:")
    then usage
    else if text == "[DONE]"
    then usage
    else usage_of_data x (x.parse_text text) usage

unfoldable pub extract_usage_from_sse_line :
    External → List ℕ → Option TokenUsage → Option TokenUsage
unfolding usage_of_text from_utf8
extract_usage_from_sse_line x line usage = elim (from_utf8 line) [
  | none ↦ usage
  | some text ↦ usage_of_text x text usage
]

-- `position` of a line feed, and what `drain(..=newline)` takes and leaves
unfoldable pub drain_line : List ℕ → Option (List ℕ × List ℕ)
drain_line [] = none
drain_line (b ∷ bs) =
    let rest = drain_line bs in
    if eqb b b'\n'
    then some (b ∷ [], bs)
    else Opt.map (λ (r : List ℕ × List ℕ). (b ∷ r.0, r.1)) rest

abbrev pub Buffer : Type 0
Buffer = List ℕ × Option TokenUsage

-- The loop over the complete lines; each takes at least one byte, so that as many rounds as there
-- are bytes are enough.
unfoldable pub drain_lines : External → ℕ → List ℕ → Option TokenUsage → Buffer
unfolding extract_usage_from_sse_line drain_line
drain_lines x zero buffer usage = (buffer, usage)
drain_lines x (suc rounds) buffer usage = elim (drain_line buffer) [
  | none ↦ (buffer, usage)
  | some (line, rest) ↦ drain_lines x rounds rest (extract_usage_from_sse_line x line usage)
]

-- a last line that has no end, if the stream is over
unfoldable pub flush_line : External → Bool → Buffer → Buffer
unfolding extract_usage_from_sse_line
flush_line x false b = b
flush_line x true ([], usage) = ([], usage)
flush_line x true (b ∷ bs, usage) = ([], extract_usage_from_sse_line x (b ∷ bs) usage)

unfoldable pub extract_usage_from_sse_buffer : External → Buffer → Bool → Buffer
unfolding drain_lines flush_line
extract_usage_from_sse_buffer x (buffer, usage) flush =
    flush_line x flush (drain_lines x (length buffer) buffer usage)

-- what the body of a provider yields: bytes, or an error of the connection
pub data Event : Type 0 where
  chunk : List ℕ → Event
  broken : String → Event

-- the state of the stream that is passed on; `signalled` is that the sender was used
pub record Tap : Type 0 where
  pub buffer : Buffer
  pub signalled : Bool

-- One poll of the stream that `wrap_stream_with_usage_extraction` makes: `none` is its end. What
-- comes is passed on as it is.
unfoldable pub poll : External → Option Event → Tap → Option Event × Tap
unfolding extract_usage_from_sse_buffer
poll x (some (chunk bytes)) t = (
  some (chunk bytes),
  record t { buffer = extract_usage_from_sse_buffer x (t.buffer.0 ++ bytes, t.buffer.1) false },
)
poll x (some (broken e)) t = (
  some (broken e),
  record { buffer = extract_usage_from_sse_buffer x t.buffer true; signalled = true },
)
poll x none t =
    (none, record { buffer = extract_usage_from_sse_buffer x t.buffer true; signalled = true })

abbrev pub new_tap : Tap
new_tap = record { buffer = ([], none); signalled = false }

-- the polls of what arrives, in order
unfoldable pub poll_all : External → List Event → Tap → List (Option Event) × Tap
unfolding poll
poll_all x [] t = ([], t)
poll_all x (event ∷ events) t =
    let (out, t') = poll x (some event) t in
    let (outs, t'') = poll_all x events t' in (out ∷ outs, t'')
