-- ===== src/Optimizer/Ansi/Segments.antt =====
-- What the removal of escape sequences keeps: the text between them.
use Prim.Native.Char.{Char, code}
use Prim.Native.String.{[] as empty, ◌∷◌ as ◌+>◌, len}
use text.Mathlib.TextLemmas.{nil-append, cons-append}
use oidc_agent_compat.Prelude.{
  ◌≤◌, ◌<◌, String, ◌<>◌, Bool, true, not, ◌&&◌, ◌≡◌, ◌∙◌, refl, ap, ◌⊎◌, inl, inr, List, [], ◌∷◌,
  All, eqb, arith, Bool-cases,
}
use oidc_agent_compat.Prelude.Text.{len-cons, len-cons_lt}
use oidc_agent_compat.Optimizer.Ansi.{is_final, is_introducer, strip_ansi_escapes, skip_sequence}

-- A text written as ordinary characters and whole escape sequences.
pub data Segment : Type 0 where
  visible : Char → Segment
  -- the parameters, and the final byte
  sequence : String → Char → Segment

unfoldable pub has_no_final : String → Bool
has_no_final empty = true
has_no_final (c +> s) = not (is_final c) && has_no_final s

-- an ordinary character is not ESC, and a sequence ends at its first final byte
unfoldable pub is_proper : Segment → Bool
is_proper (visible c) = not (eqb (code c) 0x1b)
is_proper (sequence parameters last) = has_no_final parameters && is_final last

unfoldable pub render : List Segment → String
render [] = empty
render (visible c ∷ rest) = c +> render rest
render (sequence parameters last ∷ rest) = "\u{1b}[" <> parameters <> (last +> render rest)

unfoldable pub visible_text : List Segment → String
visible_text [] = empty
visible_text (visible c ∷ rest) = c +> visible_text rest
visible_text (sequence parameters last ∷ rest) = visible_text rest

skip-parameters :
    (parameters : String) (last : Char) (rest : String)
    → has_no_final parameters ≡ true
    → is_final last ≡ true
    → skip_sequence (parameters <> (last +> rest)) ≡ strip_ansi_escapes rest
unfolding skip_sequence has_no_final
skip-parameters empty last rest p f = rw nil-append (ground arith)
skip-parameters (c +> s) last rest p f =
    rw cons-append (ground (arith, skip-parameters s last rest))

strip-introducer : (t : String) → strip_ansi_escapes ("\u{1b}[" <> t) ≡ skip_sequence t
unfolding strip_ansi_escapes is_introducer
strip-introducer t = rw cons-append (rw cons-append (rw nil-append refl))

strip-visible :
    (c : Char) (s : String)
    → not (eqb (code c) 0x1b) ≡ true
    → strip_ansi_escapes (c +> s) ≡ c +> strip_ansi_escapes s
unfolding strip_ansi_escapes is_introducer
strip-visible c empty h = refl
strip-visible c (d +> s) h = ground arith

on_tail :
    (c : Char) (t s : String)
    → (t ≡ s) ⊎ (len t < len s)
    → ((c +> t) ≡ (c +> s)) ⊎ (len (c +> t) < len (c +> s))
on_tail c t s (inl same) = inl (ap (λ r. c +> r) same)
on_tail c t s (inr less) = inr (rw (len-cons c t, len-cons c s) (omega arith))

-- Of a text made of characters other than ESC and of whole sequences, the characters are kept, all
-- of them and in order.
pub strip-render :
    (segments : List Segment)
    → All (λ s. is_proper s ≡ true) segments
    → strip_ansi_escapes (render segments) ≡ visible_text segments
unfolding render visible_text is_proper strip_ansi_escapes
strip-render [] h = refl
strip-render (visible c ∷ rest) (h, more) =
    strip-visible c (render rest) h ∙ ap (λ s. c +> s) (strip-render rest more)
strip-render (sequence parameters last ∷ rest) (h, more) =
    let closed : has_no_final parameters ≡ true = ground arith in
    let ended : is_final last ≡ true = ground arith in
    strip-introducer (parameters <> (last +> render rest))
    ∙ skip-parameters parameters last (render rest) closed ended
    ∙ strip-render rest more

-- at each position the pass keeps the text or makes it shorter
mutual
  unfolding strip_ansi_escapes

  shorter_strip : (s : String) → (strip_ansi_escapes s ≡ s) ⊎ (len (strip_ansi_escapes s) < len s)
  shorter_strip empty = inl refl
  shorter_strip (c +> empty) = inl refl
  shorter_strip (c +> d +> s) =
      let skipped = shorter_skip s in
      let shorter = len-cons_lt d s in
      let longer = len-cons_lt c (d +> s) in
      elim (Bool-cases (is_introducer c d)) [
        | inl h ↦ rw h (inr (omega arith))
        | inr h ↦ rw h (on_tail c (strip_ansi_escapes (d +> s)) (d +> s) (shorter_strip (d +> s)))
      ]

  shorter_skip : (s : String) → len (skip_sequence s) ≤ len s
  shorter_skip empty = omega arith
  shorter_skip (c +> s) =
      let skipped = shorter_skip s in
      let longer = len-cons_lt c s in
      let stripped : len (strip_ansi_escapes s) ≤ len s = elim (shorter_strip s) [
        | inl same ↦ rw same (omega arith)
        | inr less ↦ omega arith
      ] in
      elim (Bool-cases (is_final c)) [ inl h ↦ rw h (omega arith) | inr h ↦ rw h (omega arith) ]

-- The pass, which compares the lengths before and after it, so tells exactly whether it removed
-- anything, and it never makes a text longer.
pub len-strip_ansi_escapes :
    (s : String)
    → (len (strip_ansi_escapes s) ≤ len s)
      × (len (strip_ansi_escapes s) ≡ len s → strip_ansi_escapes s ≡ s)
len-strip_ansi_escapes s = elim (shorter_strip s) [
  | inl same ↦ (rw same (omega arith), λ _. same)
  | inr less ↦ (omega arith, λ equal. absurd (omega arith))
]
