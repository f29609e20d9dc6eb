-- ===== src/Reader/Number.antt =====
-- src/reader/Lexer.cpp: `lexNumber`.
use proto_clojure.Base.{
  ℕ, ◌+◌, ◌-◌, ◌*◌, ◌^◌, Bool, true, false, not, ◌&&◌, ◌||◌, Option, none, some, [], ◌∷◌, ◌++◌, ltb,
  leb, ◌==◌, if◌then◌else◌, length, Bytes, codes, ℤ, pos, neg_ℕ,
}
use proto_clojure.Reader.Cursor.{
  Cursor, eof, current, lookahead, is_digit, is_alnum, first_byte, advance, take_while, take_chars,
  symbol_char_length,
}
use proto_clojure.Reader.Token.{Token, token_at, float, integer, error, strtod}

-- What the number loops have read, and where they stand.
pub record Scan : Type 0 where
  pub digits : Bytes
  pub is_float : Bool
  pub cursor : Cursor

abbrev pub take_digits : Bytes → Cursor → Bytes × Cursor
take_digits out c = take_while (length c.rest) is_digit out c

abbrev pub scan_of : Bool → Bytes × Cursor → Scan
scan_of f (out, c) = record { digits = out; is_float = f; cursor = c }

unfoldable pub scan_integer : Bool → Cursor → Scan
scan_integer negative c = scan_of false (take_digits (if negative then b'-' ∷ [] else []) c)

-- A fraction is read only where a digit follows the point.
unfoldable pub scan_fraction : Scan → Scan
scan_fraction s =
    if not (eof s.cursor) && current s.cursor == b'.' && is_digit (lookahead s.cursor)
    then scan_of true (take_digits (s.digits ++ b'.' ∷ []) (advance s.cursor))
    else s

-- The optional sign of an exponent.
unfoldable pub scan_sign : Scan → Scan
scan_sign s =
    if not (eof s.cursor) && (current s.cursor == b'+' || current s.cursor == b'-')
    then record s { digits = s.digits ++ current s.cursor ∷ []; cursor = advance s.cursor }
    else s

abbrev pub at_exponent : Scan → Bool
at_exponent s = not (eof s.cursor) && (current s.cursor == b'e' || current s.cursor == b'E')

-- The exponent's letter and sign.
unfoldable pub exponent_mark : Scan → Scan
unfolding scan_sign
exponent_mark s = scan_sign (record {
  digits = s.digits ++ current s.cursor ∷ [];
  is_float = true;
  cursor = advance s.cursor;
})

abbrev pub exponent_missing : Scan → Bool
exponent_missing s = eof s.cursor || not (is_digit (current s.cursor))

-- `std::strtoll` in base 10 on an optional `-` and digits; `none` for ERANGE.
unfoldable pub decimal_value : ℕ → Bytes → ℕ
decimal_value acc [] = acc
decimal_value acc (b ∷ bs) = decimal_value (acc * 10 + (b - b'0')) bs

unfoldable pub strtoll : Bytes → Option ℤ
unfolding decimal_value
strtoll [] = some (pos 0)
strtoll (b ∷ bs) =
    if b == b'-'
    then if leb (decimal_value 0 bs) (2 ^ 63) then some (neg_ℕ (decimal_value 0 bs)) else none
    else if ltb (decimal_value 0 (b ∷ bs)) (2 ^ 63)
    then some (pos (decimal_value 0 (b ∷ bs)))
    else none

unfoldable pub with_value : Token → Option ℤ → Token
with_value t none = record t { fits_long = false }
with_value t (some v) = record t { int_value = v }

-- The token of a number that ends well.
unfoldable pub number_token : Bool → Bytes → ℕ → ℕ → Token
unfolding strtoll with_value
number_token is_float digits line column =
    if is_float
    then record (token_at float digits line column) { double_value = strtod digits }
    else with_value (token_at integer digits line column) (strtoll digits)

-- The byte length of a character that continues a malformed number, or 0.
unfoldable pub trail_length : Bytes → ℕ
trail_length s =
    let ch = first_byte s in
    if leb 0x80 ch
    then symbol_char_length s
    else if is_alnum ch || ch == b'_' || ch == b'.'
    then 1
    else 0

-- The part behind the digits: the `N` suffix, and the characters that make the literal malformed.
unfoldable pub finish_number : Scan → ℕ → ℕ → Token × Cursor
unfolding number_token trail_length
finish_number s line column =
    let big_suffix = not s.is_float && not (eof s.cursor) && current s.cursor == b'N' in
    let c = if big_suffix then advance s.cursor else s.cursor in
    let start = if big_suffix then s.digits ++ b'N' ∷ [] else s.digits in
    let bad = take_chars (length c.rest) (λ _ d. trail_length d.rest) start c in
    if not (eof c) && ltb 0 (trail_length c.rest)
    then (token_at error (codes "malformed number literal: " ++ bad.0) line column, bad.1)
    else (number_token s.is_float s.digits line column, c)

-- The cursor stands at the first digit: a sign is consumed by the caller.
unfoldable pub lex_number : Bool → Cursor → Token × Cursor
unfolding scan_integer scan_fraction exponent_mark finish_number
lex_number negative c =
    let s = scan_fraction (scan_integer negative c) in
    let m = exponent_mark s in
    if at_exponent s
    then if exponent_missing m
      then (
        token_at error
            (codes "malformed number literal: " ++ (m.digits ++ codes "(missing exponent digits)"))
            c.line c.column,
        m.cursor,
      )
      else finish_number (scan_of true (take_digits m.digits m.cursor)) c.line c.column
    else finish_number s c.line c.column
