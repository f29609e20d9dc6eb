-- ===== src/Reader/Lexes/Numbers.antt =====
-- src/reader/Lexer.cpp: `lexNumber` advances past its first digit.
use proto_clojure.Base.{
  ℕ, ◌≡◌, refl, ap, Bool, true, false, not, ◌&&◌, Option, none, some, [], ◌∷◌, ◌++◌, ◌==◌, ltb,
  if◌then◌else◌, length, Bytes, ℤ,
}
use proto_clojure.Reader.Cursor.{Cursor, eof, is_nil, current, is_digit, advance, take_while}
use proto_clojure.Reader.Cursor.Advances.{
  Advances, here, Advances-trans, Advances-advance, Advances-if, Advances-take_while,
  Advances-take_chars,
}
use proto_clojure.Reader.Lexes.{Lexes, Lexes-if, Lexes-here}
use proto_clojure.Reader.Number.{
  Scan, scan_of, take_digits, scan_integer, scan_fraction, exponent_mark, exponent_missing,
  at_exponent, strtoll, with_value, number_token, trail_length, finish_number, lex_number,
}
use proto_clojure.Reader.Token.{is_end, Token, token_at, integer, error}

-- A loop whose test holds at once advances.
take_while_first :
    (test : ℕ → Bool) (out : Bytes) (c : Cursor)
    → eof c ≡ false
    → test (current c) ≡ true
    → Advances (advance c) (take_while (length c.rest) test out c).1
take_while_first test out c e t = go c.rest e
  where
    go :
        (bs : Bytes)
        → is_nil bs ≡ false
        → Advances (advance c) (take_while (length bs) test out c).1
    go [] n = cc
    go (b ∷ bs) n =
        unfold take_while in
        rw (e, t) (Advances-take_while (length bs) test (out ++ current c ∷ []) (advance c))

Scan-if :
    {c : Cursor} (b : Bool) (x y : Scan)
    → Advances c x.cursor
    → Advances c y.cursor
    → Advances c (if b then x else y).cursor
Scan-if true x y p q = p
Scan-if false x y p q = q

Advances-take_digits : (out : Bytes) (c : Cursor) → Advances c (take_digits out c).1
Advances-take_digits out c = Advances-take_while (length c.rest) is_digit out c

Advances-scan_fraction : (s : Scan) → Advances s.cursor (scan_fraction s).cursor
unfolding scan_fraction
Advances-scan_fraction s =
    Scan-if _ _ _ (Advances-trans (Advances-advance s.cursor) (Advances-take_digits _ _)) here

Advances-exponent_mark : (s : Scan) → Advances s.cursor (exponent_mark s).cursor
unfolding exponent_mark
Advances-exponent_mark s =
    Scan-if _ _ _ (Advances-trans (Advances-advance _) (Advances-advance _)) (Advances-advance _)

-- `with_value` sets the value alone.
with_value_keeps :
    (t : Token) (v : Option ℤ)
    → ((with_value t v).line ≡ t.line)
      × ((with_value t v).column ≡ t.column)
      × ((with_value t v).kind ≡ t.kind)
unfolding with_value
with_value_keeps t none = (refl, refl, refl)
with_value_keeps t (some v) = (refl, refl, refl)

number_token_keeps :
    (f : Bool) (ds : Bytes) (line column : ℕ)
    → ((number_token f ds line column).line ≡ line)
      × ((number_token f ds line column).column ≡ column)
      × (is_end (number_token f ds line column).kind ≡ false)
unfolding number_token
number_token_keeps true ds line column = (refl, refl, refl)
number_token_keeps false ds line column =
    let (l, k, e) = with_value_keeps (token_at integer ds line column) (strtoll ds) in
    (l, k, ap is_end e)

finish_number-Lexes :
    {from : Cursor} (s : Scan) (c : Cursor)
    → Advances from s.cursor
    → Lexes from c (finish_number s c.line c.column)
unfolding finish_number
finish_number-Lexes s c a =
    let big = not s.is_float && not (eof s.cursor) && current s.cursor == b'N' in
    let d = if big then advance s.cursor else s.cursor in
    let (l, k, n) = number_token_keeps s.is_float s.digits c.line c.column in
    let reach = Advances-trans a (Advances-if big (Advances-advance s.cursor) here) in
    Lexes-if (not (eof d) && ltb 0 (trail_length d.rest))
      (Lexes-here error _ c _ refl
        (Advances-trans reach (Advances-take_chars (length d.rest) _ _ d)))
      (record {
        ahead = reach;
        placed = record { place = c; reached = here; line_is = l; column_is = k; not_end = n };
        before = λ b. Advances-trans b reach;
      })

lex_number-Lexes_from :
    {from : Cursor} (negative : Bool) (c : Cursor)
    → Advances from (scan_integer negative c).cursor
    → Lexes from c (lex_number negative c)
unfolding lex_number
lex_number-Lexes_from negative c a =
    let s = scan_fraction (scan_integer negative c) in
    let b = Advances-trans a (Advances-scan_fraction (scan_integer negative c)) in
    let m = Advances-trans b (Advances-exponent_mark s) in
    Lexes-if (at_exponent s)
      (Lexes-if (exponent_missing (exponent_mark s)) (Lexes-here error _ c _ refl m) (
        finish_number-Lexes
          (scan_of true (take_digits (exponent_mark s).digits (exponent_mark s).cursor)) c
          (Advances-trans m
            (Advances-take_digits (exponent_mark s).digits (exponent_mark s).cursor))))
      (finish_number-Lexes s c b)

pub lex_number-Lexes : (negative : Bool) (c : Cursor) → Lexes c c (lex_number negative c)
lex_number-Lexes negative c =
    lex_number-Lexes_from negative c (unfold scan_integer in Advances-take_digits _ c)

pub lex_number-Lexes_digit :
    (negative : Bool) (c : Cursor)
    → eof c ≡ false
    → is_digit (current c) ≡ true
    → Lexes (advance c) c (lex_number negative c)
lex_number-Lexes_digit negative c e d =
    lex_number-Lexes_from negative c (unfold scan_integer in take_while_first is_digit _ c e d)
