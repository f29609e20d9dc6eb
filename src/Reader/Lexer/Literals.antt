-- ===== src/Reader/Lexer/Literals.antt =====
-- src/reader/Lexer.cpp: where `nextImpl_` places the token of a number.
use proto_clojure.Base.{
  ℕ, suc, ◌≡◌, refl, ap, ◌∙◌, Bool, true, false, not, ◌&&◌, Option, none, some, ◌∷◌, arith, ltb,
  ◌==◌, if◌then◌else◌, Bytes, ℤ,
}
use proto_clojure.Reader.Cursor.{
  Cursor, is_digit, eof, current, advance, skip_whitespace_and_comments, skip_loop, is_blank,
  at_comment, first_byte,
}
use proto_clojure.Reader.Lexer.{Lexer, next, prev_ends_operand, lex_token, scan_token}
use proto_clojure.Reader.Lexer.Progress.{next_scans}
use proto_clojure.Reader.Number.{
  Scan, lex_number, finish_number, number_token, with_value, strtoll, scan_fraction, scan_integer,
  at_exponent, exponent_missing, exponent_mark, scan_of, take_digits, trail_length,
}
use proto_clojure.Reader.Token.{TokenKind, Token, token_at, integer}

record StandsAt (line column : ℕ) (r : Token × Cursor) : Type 0 where
  line_is : r.0.line ≡ line
  column_is : r.0.column ≡ column

with_value_place :
    (t : Token) (v : Option ℤ)
    → ((with_value t v).line ≡ t.line) × ((with_value t v).column ≡ t.column)
unfolding with_value
with_value_place t none = (refl, refl)
with_value_place t (some v) = (refl, refl)

number_token_place :
    (is_float : Bool) (digits : Bytes) (line column : ℕ)
    → ((number_token is_float digits line column).line ≡ line)
      × ((number_token is_float digits line column).column ≡ column)
unfolding number_token
number_token_place true digits line column = (refl, refl)
number_token_place false digits line column =
    with_value_place (token_at integer digits line column) (strtoll digits)

StandsAt-if :
    {line column : ℕ} (b : Bool) {x y : Token × Cursor}
    → StandsAt line column x
    → StandsAt line column y
    → StandsAt line column (if b then x else y)
StandsAt-if true p q = p
StandsAt-if false p q = q

finish_number_place :
    (s : Scan) (line column : ℕ) → StandsAt line column (finish_number s line column)
unfolding finish_number
finish_number_place s line column =
    let big = not s.is_float && not (eof s.cursor) && current s.cursor == b'N' in
    let d = if big then advance s.cursor else s.cursor in
    let (l, k) = number_token_place s.is_float s.digits line column in
    StandsAt-if (not (eof d) && ltb 0 (trail_length d.rest))
      (record { line_is = refl; column_is = refl }) (record { line_is = l; column_is = k })

lex_number_place : (negative : Bool) (c : Cursor) → StandsAt c.line c.column (lex_number negative c)
unfolding lex_number
lex_number_place negative c =
    let s = scan_fraction (scan_integer negative c) in
    StandsAt-if (at_exponent s)
      (StandsAt-if (exponent_missing (exponent_mark s))
        (record { line_is = refl; column_is = refl })
        (finish_number_place
          (scan_of true (take_digits (exponent_mark s).digits (exponent_mark s).cursor)) c.line
          c.column))
      (finish_number_place s c.line c.column)

-- Nothing is skipped in front of a byte that is no blank and begins no comment.
pub skip-byte :
    (c : Cursor) (d : ℕ) (rest : Bytes)
    → c.rest ≡ d ∷ rest
    → is_blank d ≡ false
    → at_comment c ≡ false
    → skip_whitespace_and_comments c ≡ c
unfolding skip_whitespace_and_comments
skip-byte c d rest h b k = rw (h, skip_loop) (ground (arith, ap (λ x. is_blank (first_byte x)) h))

pub digit-no_blank : (d : ℕ) → is_digit d ≡ true → is_blank d ≡ false
unfolding is_blank
digit-no_blank d e = ground arith

pub lex_token-digit :
    (prev : TokenKind) (space : Bool) (c : Cursor) (d : ℕ) (rest : Bytes)
    → c.rest ≡ d ∷ rest
    → is_digit d ≡ true
    → lex_token prev space c ≡ lex_number false c
unfolding lex_token
lex_token-digit prev space c d rest h e = ground arith

lex_token-minus :
    (prev : TokenKind) (space : Bool) (c : Cursor) (d : ℕ) (rest : Bytes)
    → c.rest ≡ b'-' ∷ d ∷ rest
    → is_digit d ≡ true
    → prev_ends_operand prev ≡ false
    → lex_token prev space c ≡ lex_number true (advance c)
unfolding lex_token
lex_token-minus prev space c d rest h e p = ground arith

pub at_comment-byte :
    (c : Cursor) (d : ℕ) (rest : Bytes)
    → c.rest ≡ d ∷ rest
    → (d == b';') ≡ false
    → (d == b'#') ≡ false
    → at_comment c ≡ false
unfolding at_comment
at_comment-byte c d rest h s k = ground arith

advance-minus :
    (c : Cursor) (rest : Bytes)
    → c.rest ≡ b'-' ∷ rest
    → ((advance c).line ≡ c.line) × ((advance c).column ≡ suc c.column)
unfolding advance
advance-minus c rest h = rw h (refl, omega arith)

-- With no token peeked: the token of a literal that begins with a digit, a malformed one
-- included, stands at that digit. That of a literal with a minus sign in front of the digit,
-- where the token before it ends no operand, stands a column behind the sign.
pub next_number_place :
    (l : Lexer) (d : ℕ) (rest : Bytes)
    → l.has_peek ≡ false
    → is_digit d ≡ true
    → (l.cursor.rest ≡ d ∷ rest
        → ((next l).0.line ≡ l.cursor.line) × ((next l).0.column ≡ l.cursor.column))
      × (prev_ends_operand l.prev_returned_kind ≡ false
          → l.cursor.rest ≡ b'-' ∷ d ∷ rest
          → ((next l).0.line ≡ l.cursor.line) × ((next l).0.column ≡ suc l.cursor.column))
unfolding scan_token
next_number_place l d rest p e =
    let c = l.cursor in
    let prev = l.prev_returned_kind in
    let (t, _, _) = next_scans l p in
    (
      λ h.
          let skip =
            skip-byte c d rest h (digit-no_blank d e)
              (at_comment-byte c d rest h (ground arith) (ground arith)) in
          let place = lex_number_place false c in
          rw (t, skip, lex_token-digit prev (not (c.pos == c.pos)) c d rest h e)
            (place.line_is, place.column_is),
      λ f h.
          let skip =
            skip-byte c b'-' (d ∷ rest) h (unfold is_blank in refl)
              (at_comment-byte c b'-' (d ∷ rest) h refl refl) in
          let place = lex_number_place true (advance c) in
          let (line, column) = advance-minus c (d ∷ rest) h in
          rw (t, skip, lex_token-minus prev (not (c.pos == c.pos)) c d rest h e f)
            (place.line_is ∙ line, place.column_is ∙ column),
    )
