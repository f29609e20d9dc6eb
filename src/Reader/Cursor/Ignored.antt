-- ===== src/Reader/Cursor/Ignored.antt =====
-- src/reader/Lexer.cpp, `skipWhitespaceAndComments`: it comes to the end exactly where a description
-- of whitespace and comments, byte by byte and apart from the loops, holds of what is left.
use proto_clojure.Base.{
  ℕ, zero, suc, ◌≤◌, ◌+◌, ◌≡◌, refl, sym, ◌∙◌, Bool, true, false, not, ◌&&◌, ◌||◌, inl, inr, [],
  ◌∷◌, arith, ◌==◌, if◌then◌else◌, length, Bytes, Bool-cases,
}
use proto_clojure.Reader.Cursor.{
  Cursor, eof, first_byte, is_blank, at_comment, advance, skip_line, skip_loop,
  skip_whitespace_and_comments,
}
use proto_clojure.Reader.Cursor.Advances.{left}

-- A blank, a tab, a return, a newline or a comma.
abbrev pub is_white : ℕ → Bool
is_white b = b == 0x20 || b == 0x09 || b == 0x0D || b == 0x0A || b == 0x2C

-- Whether the bytes are whitespace and comments; the flag tells that they begin inside a comment,
-- which `;` and `#!` open and a newline closes.
abbrev pub is_ignored : Bool → Bytes → Bool
is_ignored inside [] = true
is_ignored true (b ∷ bs) = is_ignored (not (b == 0x0A)) bs
is_ignored false (b ∷ bs) =
    if is_white b
    then is_ignored false bs
    else (b == b';' || (b == b'#' && first_byte bs == b'!')) && is_ignored true bs

-- A cursor taken apart.
abbrev cursor : Bytes → ℕ → ℕ → ℕ → Cursor
cursor bs pos line column = record { rest = bs; pos = pos; line = line; column = column }

-- The rest of a comment's line is skipped.
skip_line-is_ignored :
    (n : ℕ) (bs : Bytes) (p l k : ℕ)
    → length bs ≤ n
    → (is_ignored true bs ≡ is_ignored false (skip_line n (cursor bs p l k)).rest)
      × (left (skip_line n (cursor bs p l k)) ≤ length bs)
unfolding skip_line advance
skip_line-is_ignored zero [] p l k h = (refl, omega arith)
skip_line-is_ignored zero (b ∷ bs) p l k h = absurd (omega arith)
skip_line-is_ignored (suc n) [] p l k h = (refl, omega arith)
skip_line-is_ignored (suc n) (b ∷ bs) p l k h = elim (Bool-cases (b == 0x0A)) [
  | inl q ↦ rw q (ground arith, omega arith)
  | inr q ↦
      let (i, j) = skip_line-is_ignored n bs (p + 1) l _ (omega arith) in rw q (i, omega (arith, j))
]

-- The tests of a round, and those of the description.
eof-round :
    (white comment : Bool) (x y z : Cursor) (p q : Bool)
    → (white ≡ true → eof x ≡ p)
    → (white ≡ false → eof y ≡ q)
    → eof z ≡ false
    → eof (if white then x else if comment then y else z) ≡ (if white then p else comment && q)
eof-round true comment x y z p q h k l = h refl
eof-round false true x y z p q h k l = k refl
eof-round false false x y z p q h k l = l

no_newline : (b : ℕ) → is_white b ≡ false → (b == 0x0A) ≡ false
no_newline b h = ground (arith, h)

-- From the sign of a comment on.
skip_comment :
    (b : ℕ) (bs : Bytes) (p l k : ℕ)
    → (b == 0x0A) ≡ false
    → (is_ignored true bs
        ≡ is_ignored false (skip_line (suc (length bs)) (cursor (b ∷ bs) p l k)).rest)
      × (left (skip_line (suc (length bs)) (cursor (b ∷ bs) p l k)) ≤ length bs)
unfolding skip_line advance
skip_comment b bs p l k h = rw h (skip_line-is_ignored (length bs) bs (p + 1) l _ (omega arith))

skip_loop-is_ignored :
    (n : ℕ) (bs : Bytes) (p l k : ℕ)
    → length bs ≤ n
    → eof (skip_loop n (cursor bs p l k)) ≡ is_ignored false bs
unfolding skip_loop advance is_blank at_comment
skip_loop-is_ignored zero [] p l k h = refl
skip_loop-is_ignored zero (b ∷ bs) p l k h = absurd (omega arith)
skip_loop-is_ignored (suc n) [] p l k h = refl
skip_loop-is_ignored (suc n) (b ∷ bs) p l k h =
    eof-round (is_white b) (b == b';' || (b == b'#' && first_byte bs == b'!')) _ _ _ _ _
      (λ w. skip_loop-is_ignored n bs (p + 1) _ _ (omega arith))
      (λ w.
        let d = skip_line (suc (length bs)) (cursor (b ∷ bs) p l k) in
        let (i, j) = skip_comment b bs p l k (no_newline b w) in
        skip_loop-is_ignored n d.rest d.pos d.line d.column (omega (arith, j, h)) ∙ sym i)
      refl

-- What is skipped is what is described: the loops come to the end on nothing else.
pub skip-is_ignored : (c : Cursor) → eof (skip_whitespace_and_comments c) ≡ is_ignored false c.rest
unfolding skip_whitespace_and_comments
skip-is_ignored c = skip_loop-is_ignored (length c.rest) c.rest c.pos c.line c.column (omega arith)
