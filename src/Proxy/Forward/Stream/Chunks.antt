-- ===== src/Proxy/Forward/Stream/Chunks.antt =====
-- The usage that forward.rs reads from a stream does not depend on how its bytes are cut.
use oidc_agent_compat.Prelude.{
  String, ℕ, zero, suc, ◌≤◌, ◌<◌, ◌≡◌, refl, sym, ap, ◌∙◌, ◌⊎◌, inl, inr, true, false, Option, none,
  some, List, [], ◌∷◌, ◌++◌, map, eqb, length, if◌then◌else◌, Bool-cases, arith,
}
use mathlib.Core.List.{append_assoc, append-nil}
use oidc_agent_compat.External.{External}
use oidc_agent_compat.Proxy.Forward.{TokenUsage}
use oidc_agent_compat.Proxy.Forward.Stream.{
  extract_usage_from_sse_line, extract_usage_from_sse_buffer, drain_line, drain_lines, flush_line,
  Buffer, Event, chunk, broken, Tap, poll, poll_all, new_tap,
}

-- the complete lines of a text, each with its line feed, and what follows the last of them
abbrev pub Lines : Type 0
Lines = List (List ℕ) × List ℕ

abbrev pub put_byte : ℕ → Lines → Lines
put_byte b ([], rest) = ([], b ∷ rest)
put_byte b (line ∷ lines, rest) = ((b ∷ line) ∷ lines, rest)

abbrev pub split_lines : List ℕ → Lines
split_lines [] = ([], [])
split_lines (b ∷ bs) =
    let more = split_lines bs in
    if eqb b b'\n' then ((b ∷ []) ∷ more.0, more.1) else put_byte b more

abbrev pub all_lines : Lines → List (List ℕ)
all_lines (lines, []) = lines
all_lines (lines, b ∷ rest) = lines ++ (b ∷ rest) ∷ []

abbrev pub concat : List (List ℕ) → List ℕ
concat [] = []
concat (bytes ∷ chunks) = bytes ++ concat chunks

-- by a line that has its end
drain_line_lem :
    (b : List ℕ)
    → ((drain_line b ≡ none) × (split_lines b ≡ ([], b)))
      ⊎ ((line rest : List ℕ) × (drain_line b ≡ some (line, rest))
          × (split_lines b ≡ (line ∷ (split_lines rest).0, (split_lines rest).1))
          × (length rest < length b))
unfolding drain_line
drain_line_lem [] = inl (refl, refl)
drain_line_lem (b ∷ bs) = elim (Bool-cases (eqb b b'\n')) [
  | inl e ↦ inr (b ∷ [], bs, rw e, rw e, omega arith)
  | inr n ↦ elim (drain_line_lem bs) [
    | inl (h, k) ↦ inl (rw (n, h), rw (n, k))
    | inr (line, rest, h, k, m) ↦ inr (b ∷ line, rest, rw (n, h), rw (n, k), omega arith)
  ]
]

put_byte-append :
    (b : ℕ) (ys : List ℕ) (m : Lines)
    → eqb b b'\n' ≡ false
    → put_byte b (m.0 ++ (split_lines (m.1 ++ ys)).0, (split_lines (m.1 ++ ys)).1) ≡ (
      (put_byte b m).0 ++ (split_lines ((put_byte b m).1 ++ ys)).0,
      (split_lines ((put_byte b m).1 ++ ys)).1,
    )
put_byte-append b ys ([], r) n = rw n refl
put_byte-append b ys (l ∷ ls, r) n = refl

-- a text with more behind it: what follows the last line feed is split again with the rest
split_lines-append :
    (xs ys : List ℕ)
    → split_lines (xs ++ ys) ≡ (
      (split_lines xs).0 ++ (split_lines ((split_lines xs).1 ++ ys)).0,
      (split_lines ((split_lines xs).1 ++ ys)).1,
    )
split_lines-append [] ys = refl
split_lines-append (b ∷ xs) ys = elim (Bool-cases (eqb b b'\n')) [
  | inl e ↦ rw (e, split_lines-append xs ys) refl
  | inr n ↦ rw (n, split_lines-append xs ys) (put_byte-append b ys (split_lines xs) n)
]

put_byte_rest :
    (b : ℕ) (m : Lines)
    → eqb b b'\n' ≡ false
    → split_lines m.1 ≡ ([], m.1)
    → split_lines (put_byte b m).1 ≡ ([], (put_byte b m).1)
put_byte_rest b ([], r) n h = rw (n, h) refl
put_byte_rest b (l ∷ ls, r) n h = h

-- what follows the last line feed has none
split_lines_rest : (xs : List ℕ) → split_lines (split_lines xs).1 ≡ ([], (split_lines xs).1)
split_lines_rest [] = refl
split_lines_rest (b ∷ xs) = elim (Bool-cases (eqb b b'\n')) [
  | inl e ↦ rw e (split_lines_rest xs)
  | inr n ↦ rw n (put_byte_rest b (split_lines xs) n (split_lines_rest xs))
]

module _ (x : External) where
  -- the usage after some lines, read one by one
  abbrev pub usage_of_lines : List (List ℕ) → Option TokenUsage → Option TokenUsage
  usage_of_lines [] usage = usage
  usage_of_lines (line ∷ lines) usage =
      usage_of_lines lines (extract_usage_from_sse_line x line usage)

  usage_of_lines-append :
      (ls ms : List (List ℕ)) (usage : Option TokenUsage)
      → usage_of_lines (ls ++ ms) usage ≡ usage_of_lines ms (usage_of_lines ls usage)
  usage_of_lines-append [] ms usage = refl
  usage_of_lines-append (l ∷ ls) ms usage =
      usage_of_lines-append ls ms (extract_usage_from_sse_line x l usage)

  drain_lines_lem :
      (rounds : ℕ) (b : List ℕ) (usage : Option TokenUsage)
      → length b ≤ rounds
      → drain_lines x rounds b usage ≡ ((split_lines b).1, usage_of_lines (split_lines b).0 usage)
  unfolding drain_lines
  drain_lines_lem zero [] usage h = refl
  drain_lines_lem zero (b ∷ bs) usage h = absurd (omega arith)
  drain_lines_lem (suc rounds) b usage h = elim (drain_line_lem b) [
    | inl (e, k) ↦ rw (e, drain_lines, k) refl
    | inr (line, rest, e, k, m) ↦
        rw (e, drain_lines, k)
          (drain_lines_lem rounds rest (extract_usage_from_sse_line x line usage) (omega arith))
  ]

  -- the state of the tap after some bytes
  abbrev state_of : List ℕ → Buffer
  state_of bytes = ((split_lines bytes).1, usage_of_lines (split_lines bytes).0 none)

  drain_more :
      (seen bytes : List ℕ)
      → extract_usage_from_sse_buffer x ((state_of seen).0 ++ bytes, (state_of seen).1) false
        ≡ state_of (seen ++ bytes)
  unfolding extract_usage_from_sse_buffer flush_line
  drain_more seen bytes =
      let buffer = (split_lines seen).1 ++ bytes in
      let usage = usage_of_lines (split_lines seen).0 none in
      rw
        (
          split_lines-append seen bytes,
          usage_of_lines-append (split_lines seen).0 (split_lines buffer).0 none,
        )
        (drain_lines_lem (length buffer) buffer usage (omega arith))

  last_line :
      (rest : List ℕ) (lines : List (List ℕ))
      → (flush_line x true (rest, usage_of_lines lines none)).1
        ≡ usage_of_lines (all_lines (lines, rest)) none
  unfolding flush_line
  last_line [] lines = refl
  last_line (b ∷ rest) lines = sym (usage_of_lines-append lines ((b ∷ rest) ∷ []) none)

  flushed :
      (seen : List ℕ)
      → (extract_usage_from_sse_buffer x (state_of seen) true).1
        ≡ usage_of_lines (all_lines (split_lines seen)) none
  unfolding extract_usage_from_sse_buffer
  flushed seen =
      let rest = (split_lines seen).1 in
      let usage = usage_of_lines (split_lines seen).0 none in
      rw (drain_lines_lem (length rest) rest usage (omega arith), split_lines_rest seen)
        (last_line rest (split_lines seen).0)

  -- the events of some chunks, as they are passed on
  abbrev pub passed : List (List ℕ) → List (Option Event)
  passed chunks = map (λ (c : List ℕ). some (chunk c)) chunks

  tap_of :
      (chunks : List (List ℕ)) (seen : List ℕ) (t : Tap)
      → t.buffer ≡ state_of seen
      → ((poll_all x (map chunk chunks) t).0 ≡ passed chunks)
        × ((poll_all x (map chunk chunks) t).1.buffer ≡ state_of (seen ++ concat chunks))
  unfolding poll_all poll
  tap_of [] seen t h = (refl, rw append-nil h)
  tap_of (c ∷ chunks) seen t h =
      let fed =
        ap (λ (b : Buffer). extract_usage_from_sse_buffer x (b.0 ++ c, b.1) false) h
        ∙ drain_more seen c in
      let (out, after) =
        tap_of chunks (seen ++ c)
          (record t {
            buffer = extract_usage_from_sse_buffer x (t.buffer.0 ++ c, t.buffer.1) false;
          })
          fed in
      (
        ap (λ (later : List (Option Event)). some (chunk c) ∷ later) out,
        rw (← append_assoc seen c (concat chunks)) after,
      )

  -- However the bytes of a provider are cut into chunks, the chunks are passed on as they come; while
  -- they arrive, the usage that is kept is that of the complete lines, read in their order, and when
  -- the stream has ended or broken off, that of all lines, the last one with no end included, and its
  -- end is signalled.
  pub poll_all_lem :
      (chunks : List (List ℕ)) (e : String)
      → let (out, t) = poll_all x (map chunk chunks) new_tap in
        let ended = (poll x none t).1 in
        let failed = (poll x (some (broken e)) t).1 in
        (out ≡ passed chunks)
        × (t.buffer.1 ≡ usage_of_lines (split_lines (concat chunks)).0 none)
        × (ended.buffer.1 ≡ usage_of_lines (all_lines (split_lines (concat chunks))) none)
        × (ended.signalled ≡ true)
        × (failed.buffer.1 ≡ usage_of_lines (all_lines (split_lines (concat chunks))) none)
        × (failed.signalled ≡ true)
  unfolding poll
  poll_all_lem chunks e =
      let (out, seen) = tap_of chunks [] new_tap refl in
      let last =
        ap (λ (b : Buffer). (extract_usage_from_sse_buffer x b true).1) seen
        ∙ flushed (concat chunks) in
      (out, ap (λ (b : Buffer). b.1) seen, last, refl, last, refl)
