-- ===== src/Reader/Cursor/Advances.antt =====
-- src/reader/Lexer.cpp: the loops move the position by `advance` alone, and leave fewer bytes.
use proto_clojure.Base.{
  ℕ, zero, suc, ◌-◌, ◌≤◌, ◌<◌, ◌≡◌, refl, Bool, true, false, not, ◌&&◌, ◌||◌, [], ◌∷◌, arith, ◌==◌,
  if◌then◌else◌, length, Bytes,
}
use proto_clojure.Reader.Cursor.{
  Cursor, eof, current, is_nil, is_blank, at_comment, advance_on, advance, advance_by, take_while,
  take_chars, skip_line, skip_loop, skip_whitespace_and_comments,
}

-- `d` is reached from `c` by calls of `advance`.
pub data Advances (c : Cursor) : Cursor → Type 0 where
  here : Advances c c
  step : {d : Cursor} → Advances c d → Advances c (advance d)

pub Advances-trans : {c d e : Cursor} → Advances c d → Advances d e → Advances c e
Advances-trans p here = p
Advances-trans p (step q) = step (Advances-trans p q)

pub Advances-advance : (c : Cursor) → Advances c (advance c)
Advances-advance c = step here

abbrev pub left : Cursor → ℕ
left c = length c.rest

pub left-advance : (c : Cursor) → left (advance c) ≡ left c - 1
unfolding advance
left-advance c = go c.rest c refl
  where
    go : (bs : Bytes) (c : Cursor) → c.rest ≡ bs → length (advance_on bs c).rest ≡ length bs - 1
    go [] c e = rw e
    go (b ∷ bs) c e = omega arith

pub left_pos : (c : Cursor) → eof c ≡ false → 0 < left c
left_pos c h = go c.rest h
  where
    go : (bs : Bytes) → is_nil bs ≡ false → 0 < length bs
    go [] h = cc
    go (b ∷ bs) h = omega arith

pub Advances-left : {c d : Cursor} → Advances c d → left d ≤ left c
Advances-left here = omega arith
Advances-left (step {d} p) = omega (arith, Advances-left p, left-advance d)

pub Advances-advance_by : (n : ℕ) (c : Cursor) → Advances c (advance_by n c)
unfolding advance_by
Advances-advance_by zero c = here
Advances-advance_by (suc n) c =
    Advances-trans (Advances-advance c) (Advances-advance_by n (advance c))

pub Advances-if :
    {c d e : Cursor} (b : Bool) → Advances c d → Advances c e → Advances c (if b then d else e)
Advances-if true p q = p
Advances-if false p q = q

Advances-take_if :
    {c : Cursor} (b : Bool) (x y : Bytes × Cursor)
    → Advances c x.1
    → Advances c y.1
    → Advances c (if b then x else y).1
Advances-take_if true x y p q = p
Advances-take_if false x y p q = q

pub Advances-take_while :
    (fuel : ℕ) (test : ℕ → Bool) (out : Bytes) (c : Cursor)
    → Advances c (take_while fuel test out c).1
unfolding take_while
Advances-take_while zero test out c = here
Advances-take_while (suc fuel) test out c =
    Advances-take_if (not (eof c) && test (current c)) _ _
      (Advances-trans (Advances-advance c) (Advances-take_while fuel test _ (advance c))) here

pub Advances-take_chars :
    (fuel : ℕ) (len : Bytes → Cursor → ℕ) (out : Bytes) (c : Cursor)
    → Advances c (take_chars fuel len out c).1
unfolding take_chars
Advances-take_chars zero len out c = here
Advances-take_chars (suc fuel) len out c = Advances-take_if (eof c || len out c == 0) _ _ here (
    Advances-trans (Advances-advance_by (len out c) c)
      (Advances-take_chars fuel len _ (advance_by (len out c) c)))

Advances-skip_line : (fuel : ℕ) (c : Cursor) → Advances c (skip_line fuel c)
unfolding skip_line
Advances-skip_line zero c = here
Advances-skip_line (suc fuel) c =
    Advances-if (not (eof c) && not (current c == b'\n'))
      (Advances-trans (Advances-advance c) (Advances-skip_line fuel (advance c))) here

Advances-skip_loop : (fuel : ℕ) (c : Cursor) → Advances c (skip_loop fuel c)
unfolding skip_loop
Advances-skip_loop zero c = here
Advances-skip_loop (suc fuel) c = Advances-if (eof c) here (
    Advances-if (is_blank (current c))
      (Advances-trans (Advances-advance c) (Advances-skip_loop fuel (advance c)))
      (Advances-if (at_comment c)
        (Advances-trans (Advances-skip_line (length c.rest) c)
          (Advances-skip_loop fuel (skip_line (length c.rest) c)))
        here))

pub Advances-skip : (c : Cursor) → Advances c (skip_whitespace_and_comments c)
unfolding skip_whitespace_and_comments
Advances-skip c = Advances-skip_loop (length c.rest) c
