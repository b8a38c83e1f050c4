-- ===== src/Web/Capture/Chunks.antt =====
-- src/web/capture.rs: however a stream is cut into chunks, its lines are the same.
use mathlib.Core.List.{append_assoc, append-nil}
use mathlib.Core.Path.{subst}
use fghj.Prelude.{
  ℕ, zero, suc, ◌<◌, ◌≤◌, false, none, some, List, [], ◌∷◌, ◌++◌, ◌≡◌, refl, sym, ap, ◌∙◌, inl, inr,
  arith, length, nat_eq, Bool-cases, All,
}
use fghj.Web.Capture.{Lines, newline, cut, take_lines, push, push_each, concat}

-- Lines, each ended by a newline, and then the bytes of one that is not ended.
abbrev pub joined : List (List ℕ) → List ℕ → List ℕ
joined [] rest = rest
joined (line ∷ lines) rest = line ++ newline ∷ joined lines rest

abbrev pub NoNewline : List ℕ → Type 0
NoNewline l = All (λ b. nat_eq b newline ≡ false) l

cut-joined : (line l : List ℕ) → NoNewline line → cut (line ++ newline ∷ l) ≡ some (line, l)
unfolding cut
cut-joined [] l h = refl
cut-joined (b ∷ line) l h = rw (h.0, cut-joined line l h.1) refl

cut_rest : (rest : List ℕ) → NoNewline rest → cut rest ≡ none
unfolding cut
cut_rest [] h = refl
cut_rest (b ∷ rest) h = rw (h.0, cut_rest rest h.1) refl

-- Every list of bytes is made of lines and a rest in exactly one way, which the loop finds.
take_lines-joined :
    (lines : List (List ℕ)) (rest : List ℕ) (fuel : ℕ)
    → All NoNewline lines
    → NoNewline rest
    → length lines < fuel
    → take_lines fuel (joined lines rest) ≡ some (lines, rest)
unfolding take_lines
take_lines-joined lines rest zero h k f = absurd (omega arith)
take_lines-joined [] rest (suc fuel) h k f = rw (cut_rest rest k, take_lines) refl
take_lines-joined (line ∷ lines) rest (suc fuel) h k f =
    rw
      (
        cut-joined line (joined lines rest) h.0,
        take_lines-joined lines rest fuel h.1 k (omega arith),
        take_lines,
      )
      refl

few_lines : (lines : List (List ℕ)) (rest : List ℕ) → length lines ≤ length (joined lines rest)
few_lines [] rest = omega arith
few_lines (line ∷ lines) rest = longer line (few_lines lines rest)
  where
    longer :
        (line : List ℕ)
        → length lines ≤ length (joined lines rest)
        → suc (length lines) ≤ length (line ++ newline ∷ joined lines rest)
    longer [] h = omega arith
    longer (b ∷ l) h = let ih = longer l h in omega arith

split :
    (l : List ℕ)
    → (lines : List (List ℕ)) × (rest : List ℕ) × (joined lines rest ≡ l)
      × All NoNewline lines
      × NoNewline rest
split [] = ([], [], refl, tt, tt)
split (b ∷ l) = elim (Bool-cases (nat_eq b newline)) [
  | inl e ↦
      let (lines, rest, q, h, k) = split l in
      let p : newline ≡ b = ground arith in ([] ∷ lines, rest, (λ i. p i ∷ q i), (tt, h), k)
  | inr e ↦ grow e (split l)
]
  where
    grow :
        nat_eq b newline ≡ false
        → (lines : List (List ℕ)) × (rest : List ℕ) × (joined lines rest ≡ l)
          × All NoNewline lines
          × NoNewline rest
        → (lines : List (List ℕ)) × (rest : List ℕ) × (joined lines rest ≡ b ∷ l)
          × All NoNewline lines
          × NoNewline rest
    grow e ([], rest, q, h, k) = ([], b ∷ rest, ap (λ r. b ∷ r) q, tt, (e, k))
    grow e (line ∷ lines, rest, q, h, k) =
        ((b ∷ line) ∷ lines, rest, ap (λ r. b ∷ r) q, ((e, h.0), h.1), k)

push-joined :
    (bytes : List ℕ) (s : Lines) (lines : List (List ℕ)) (rest : List ℕ)
    → joined lines rest ≡ s.buf ++ bytes
    → All NoNewline lines
    → NoNewline rest
    → push bytes s ≡ some (lines, record { buf = rest })
unfolding push
push-joined bytes s lines rest q h k =
    let few = few_lines lines rest in
    let few' : length lines < suc (length (s.buf ++ bytes)) =
      subst (λ l. length lines < suc (length l)) q (omega arith) in
    let p : take_lines (suc (length (s.buf ++ bytes))) (s.buf ++ bytes) ≡ some (lines, rest) =
      subst (λ l. take_lines (suc (length (s.buf ++ bytes))) l ≡ some (lines, rest)) q
        (take_lines-joined lines rest (suc (length (s.buf ++ bytes))) h k few') in
    rw p refl

-- What a push gives: the lines and what it keeps, put together again with their newlines, are what was
-- kept before and the new bytes; and none of them holds a newline.
abbrev pub IsSplit : List ℕ → Lines → List (List ℕ) → Lines → Type 0
IsSplit bytes s lines t =
    (joined lines t.buf ≡ s.buf ++ bytes) × All NoNewline lines × NoNewline t.buf

-- `push` always ends, and splits what it has exactly at the newlines.
push_lem :
    (bytes : List ℕ) (s : Lines)
    → (lines : List (List ℕ)) × (t : Lines) × (push bytes s ≡ some (lines, t))
      × IsSplit bytes s lines t
push_lem bytes s =
    let (lines, rest, q, h, k) = split (s.buf ++ bytes) in
    (lines, record { buf = rest }, push-joined bytes s lines rest q h k, (q, h, k))

joined-append :
    (l k : List (List ℕ)) (rest : List ℕ) → joined (l ++ k) rest ≡ joined l (joined k rest)
joined-append [] k rest = refl
joined-append (line ∷ l) k rest = ap (λ r. line ++ newline ∷ r) (joined-append l k rest)

joined-rest :
    (l : List (List ℕ)) (rest more : List ℕ) → joined l rest ++ more ≡ joined l (rest ++ more)
joined-rest [] rest more = refl
joined-rest (line ∷ l) rest more =
    append_assoc line (newline ∷ joined l rest) more
    ∙ ap (λ r. line ++ newline ∷ r) (joined-rest l rest more)

All-append : (l k : List (List ℕ)) → All NoNewline l → All NoNewline k → All NoNewline (l ++ k)
All-append [] k h j = j
All-append (x ∷ l) k h j = (h.0, All-append l k h.1 j)

-- Pushing chunk after chunk is one push of the whole.
push_each-concat :
    (chunks : List (List ℕ)) (s : Lines)
    → NoNewline s.buf
    → push_each chunks s ≡ push (concat chunks) s
unfolding push_each concat
push_each-concat [] s h = sym (push-joined [] s [] s.buf (sym (append-nil s.buf)) tt h)
push_each-concat (c ∷ chunks) s h =
    let (l1, t1, p1, (q1, h1, k1)) = push_lem c s in
    let (l2, t2, p2, (q2, h2, k2)) = push_lem (concat chunks) t1 in
    let ih = push_each-concat chunks t1 k1 ∙ p2 in
    let whole : joined (l1 ++ l2) t2.buf ≡ s.buf ++ (c ++ concat chunks) =
      joined-append l1 l2 t2.buf
      ∙ ap (joined l1) q2
      ∙ sym (joined-rest l1 t1.buf (concat chunks))
      ∙ ap (λ r. r ++ concat chunks) q1
      ∙ append_assoc s.buf c (concat chunks) in
    rw (p1, ih, push_each)
      (sym (push-joined (c ++ concat chunks) s (l1 ++ l2) t2.buf whole (All-append l1 l2 h1 h2) k2))

-- However a stream is cut into chunks, pushing one after another ends. The lines that it gives, each
-- with its newline, and then what it keeps, are together what was kept at first and the whole stream,
-- and none of them holds a newline, if what was kept at first holds none.
pub push_each_lem :
    (chunks : List (List ℕ)) (s : Lines)
    → NoNewline s.buf
    → (lines : List (List ℕ)) × (t : Lines) × (push_each chunks s ≡ some (lines, t))
      × IsSplit (concat chunks) s lines t
push_each_lem chunks s h =
    let (lines, t, p, done) = push_lem (concat chunks) s in
    (lines, t, push_each-concat chunks s h ∙ p, done)
