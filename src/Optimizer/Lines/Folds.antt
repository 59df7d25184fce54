-- ===== src/Optimizer/Lines/Folds.antt =====
-- What the collapse of repeated lines keeps: every line, and the number of its repetitions.
use Prim.Native.Char.{Char, code, len_utf8}
use Prim.Native.String.{[] as empty, ◌∷◌ as ◌+>◌, len}
use text.Mathlib.TextPositions.{len-append}
use oidc_agent_compat.Prelude.{
  ℕ, zero, suc, ◌+◌, ◌-◌, ◌*◌, ◌≤◌, ◌<◌, String, ◌==◌, ◌<>◌, Bool, true, false, ◌&&◌, ◌≡◌, refl, ap,
  inl, inr, List, [], ◌∷◌, ◌++◌, length, leb, leb→le, ltb, eqb, if◌then◌else◌, arith, Bool-cases,
  eq_iff,
}
use oidc_agent_compat.Prelude.Text.{has_char, len-cons, len-cons_lt, len-nil}
use oidc_agent_compat.Optimizer.Lines.{
  lines, on_first, at_newline, join_lines, marker, replicate, literal_len, emit_run, prepend,
  collapse_runs, collapse_lines, join_removed, collapse_repeated_lines,
}

-- `Folds before after n`: `after` is `before` with some runs of at least two equal lines replaced
-- by their marker, which shows the line and their number and takes no more bytes than they did; `n` lines fewer stand in `after`.
pub data Folds : List String → List String → ℕ → Type 0 where
  done : Folds [] [] 0
  keep :
      (l : String) {before after : List String} {n : ℕ}
      → Folds before after n
      → Folds (l ∷ before) (l ∷ after) n
  fold :
      (l : String) (k : ℕ) {before after : List String} {n : ℕ}
      → len (marker (suc (suc k)) l) ≤ literal_len (suc (suc k)) l
      → Folds before after n
      → Folds (replicate (suc (suc k)) l ++ before) (marker (suc (suc k)) l ∷ after) (suc k + n)

-- the bytes of the lines, each with a line feed
unfoldable pub size : List String → ℕ
size [] = 0
size (l ∷ ls) = suc (len l + size ls)

-- a run as it stands before the lines that follow
keep_all :
    (n : ℕ) (l : String) {before after : List String} {k : ℕ}
    → Folds before after k
    → Folds (replicate n l ++ before) (replicate n l ++ after) k
unfolding replicate
keep_all zero l f = f
keep_all (suc n) l f = Folds.keep l (keep_all n l f)

emit_run-Folds :
    (n : ℕ) (l : String) {before : List String} (rest : List String × ℕ)
    → 0 < n
    → Folds before rest.0 rest.1
    → let r = prepend (emit_run n l) rest in Folds (replicate n l ++ before) r.0 r.1
unfolding emit_run prepend
emit_run-Folds zero l (after, k) h f = absurd (omega arith)
emit_run-Folds (suc zero) l (after, k) h f =
    let same : 0 + k ≡ k = omega arith in rw same (Folds.keep l f)
emit_run-Folds (suc (suc j)) l (after, k) h f =
    let many : ltb 1 (suc (suc j)) ≡ true = ground arith in
    let removed : suc (suc j) - 1 ≡ suc j = omega arith in
    let none_removed : 0 + k ≡ k = omega arith in
    elim (Bool-cases (leb (len (marker (suc (suc j)) l)) (literal_len (suc (suc j)) l))) [
      | inl short ↦ rw (many, short, removed) (Folds.fold l j (leb→le _ _ short) f)
      | inr long ↦ rw (many, long, none_removed) (keep_all (suc (suc j)) l f)
    ]

-- a further line of the run
replicate-snoc :
    (n : ℕ) (l : String) (ls : List String) → replicate n l ++ (l ∷ ls) ≡ l ∷ (replicate n l ++ ls)
unfolding replicate
replicate-snoc zero l ls = refl
replicate-snoc (suc n) l ls = ap (λ r. l ∷ r) (replicate-snoc n l ls)

collapse_runs-Folds :
    (n : ℕ) (l : String) (ls : List String)
    → 0 < n
    → Folds (replicate n l ++ ls) (collapse_runs n l ls).0 (collapse_runs n l ls).1
unfolding collapse_runs replicate
collapse_runs-Folds n l [] h = emit_run-Folds n l ([], 0) h Folds.done
collapse_runs-Folds n l (m ∷ ls) h = elim (Bool-cases (m == l)) [
  | inl same ↦
      rw (collapse_runs, same)
        (rw ((eq_iff m l).0 same, replicate-snoc n l ls)
          (collapse_runs-Folds (suc n) l ls (omega arith)))
  | inr other ↦
      rw (collapse_runs, other)
        (emit_run-Folds n l (collapse_runs 1 m ls) h (collapse_runs-Folds 1 m ls (omega arith)))
]

collapse_lines-Folds : (ls : List String) → Folds ls (collapse_lines ls).0 (collapse_lines ls).1
unfolding collapse_lines replicate
collapse_lines-Folds [] = Folds.done
collapse_lines-Folds (l ∷ ls) = collapse_runs-Folds 1 l ls (omega arith)

-- the bytes never grow

size-append : (ls ms : List String) → size (ls ++ ms) ≡ size ls + size ms
unfolding size
size-append [] ms = omega arith
size-append (l ∷ ls) ms = let rest = size-append ls ms in omega arith

size-replicate : (n : ℕ) (l : String) → size (replicate n l) ≡ n * len l + n
unfolding size replicate
size-replicate zero l = ground arith
size-replicate (suc n) l = let rest = size-replicate n l in ground arith

size-Folds : {before after : List String} {n : ℕ} → Folds before after n → size after ≤ size before
unfolding size literal_len
size-Folds Folds.done = omega arith
size-Folds (Folds.keep l f) = let rest = size-Folds f in omega arith
size-Folds (Folds.fold l k {before} {after} short f) =
    let rest = size-Folds f in
    let run = size-replicate (suc (suc k)) l in
    let whole = size-append (replicate (suc (suc k)) l) before in omega arith

length-append : (ls ms : List String) → length (ls ++ ms) ≡ length ls + length ms
length-append [] ms = omega arith
length-append (l ∷ ls) ms = let rest = length-append ls ms in omega arith

length-replicate : (n : ℕ) (l : String) → length (replicate n l) ≡ n
unfolding replicate
length-replicate zero l = refl
length-replicate (suc n) l = ap suc (length-replicate n l)

-- the number of removed lines
length-Folds :
    {before after : List String} {n : ℕ} → Folds before after n → n + length after ≡ length before
length-Folds Folds.done = omega arith
length-Folds (Folds.keep l f) = let rest = length-Folds f in omega arith
length-Folds (Folds.fold l k {before} {after} short f) =
    let rest = length-Folds f in
    let run = length-replicate (suc (suc k)) l in
    let whole = length-append (replicate (suc (suc k)) l) before in omega arith

folds_nothing : {before : List String} {n : ℕ} → Folds before [] n → n ≡ 0
folds_nothing Folds.done = refl

size-on_first :
    (c : Char) (ls : List String) (n : ℕ)
    → size ls ≤ n + 1
    → size (on_first c ls) ≤ len_utf8 c + n + 1
unfolding size on_first
size-on_first c [] n h = let first = len-cons c empty in let nothing = len-nil in omega arith
size-on_first c (l ∷ ls) n h = let first = len-cons c l in omega arith

size_branches :
    (a b : Bool) {n : ℕ} (xs ys zs : List String)
    → size xs ≤ n
    → size ys ≤ n
    → size zs ≤ n
    → size (if a then xs else if b then ys else zs) ≤ n
size_branches true b xs ys zs x y z = x
size_branches false true xs ys zs x y z = y
size_branches false false xs ys zs x y z = z

-- the lines of a text take no more bytes than the text
size-lines : (s : String) → size (lines s) ≤ len s + 1
unfolding size lines
size-lines empty = rw len-nil (omega arith)
size-lines (c +> s) =
    let rest = size-lines s in
    let longer = len-cons_lt c s in
    let first = size-on_first c (lines s) (len s) (size-lines s) in
    let whole = len-cons c s in
    let nothing = len-nil in
    size_branches (eqb (code c) 10) (eqb (code c) 13 && at_newline s) (empty ∷ lines s) (lines s)
      (on_first c (lines s)) (omega arith) (omega arith) (omega arith)

len-join_lines : (l : String) (ls : List String) → suc (len (join_lines (l ∷ ls))) ≡ size (l ∷ ls)
unfolding size join_lines
len-join_lines l [] = omega arith
len-join_lines l (m ∷ ls) =
    let rest = len-join_lines m ls in
    let appended = len-append l ("\n" <> join_lines (m ∷ ls)) in
    let feed = len-append "\n" (join_lines (m ∷ ls)) in omega arith

-- What the pass answers for `content`: either no line was removed and the text is as it was, or its
-- lines with runs of equal lines folded into markers are joined.
pub data Collapsed (content : String) : String → ℕ → Type 0 where
  unchanged : Collapsed content content 0
  folded :
      (l : String) (after : List String) {n : ℕ}
      → Folds (lines content) (l ∷ after) (suc n)
      → Collapsed content (join_lines (l ∷ after)) (suc n)

join_removed-Collapsed :
    (content : String) (after : List String) (n : ℕ)
    → Folds (lines content) after n
    → Collapsed content (join_removed content (after, n)).0 (join_removed content (after, n)).1
unfolding join_removed
join_removed-Collapsed content after zero f = Collapsed.unchanged
join_removed-Collapsed content [] (suc n) f = absurd (cc (folds_nothing f))
join_removed-Collapsed content (l ∷ after) (suc n) f = Collapsed.folded l after f

len-Collapsed : {content out : String} {n : ℕ} → Collapsed content out n → len out ≤ len content
len-Collapsed Collapsed.unchanged = omega arith
len-Collapsed {content} (Collapsed.folded l after f) =
    let before = size-lines content in
    let folded = size-Folds f in let bytes = len-join_lines l after in omega arith

-- The pass gives back the text as it was, or its lines with runs of equal lines folded into markers
-- that carry the line and its number of repetitions; the second answer is the number of lines that
-- were removed, and the text never grows.
pub collapse_repeated_lines_lem :
    (content : String)
    → let (out, removed) = collapse_repeated_lines content in
      Collapsed content out removed × (len out ≤ len content)
unfolding collapse_repeated_lines
collapse_repeated_lines_lem content = elim (Bool-cases (has_char 10 content)) [
  | inl h ↦
      let f = collapse_lines-Folds (lines content) in
      let c =
        join_removed-Collapsed content (collapse_lines (lines content)).0
          (collapse_lines (lines content)).1 f in
      rw h (c, len-Collapsed c)
  | inr h ↦ rw h (Collapsed.unchanged, omega arith)
]
