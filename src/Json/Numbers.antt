-- ===== src/Json/Numbers.antt =====
-- src/runtime/Json.cpp: `Parser::number` and `Parser::word`.
use proto_clojure.Base.{
  ℕ, Bool, true, false, not, ◌||◌, Option, none, some, [], ◌∷◌, ◌++◌, within, ◌==◌, if◌then◌else◌,
  Bytes, codes, ℤ,
}
use proto_clojure.Json.Source.{
  Source, peek, advance, Parsed, ok, fail, ◌>>=◌, describe_current, take_run, is_digit, is_letter,
}
use proto_clojure.Json.{Value, double, integer, large}
use proto_clojure.Reader.Number.{strtoll}
use proto_clojure.Reader.Token.{strtod}

-- The text of the number so far, and whether it has a fraction or an exponent.
pub record Scan : Type 0 where
  pub digits : Bytes
  pub is_float : Bool

abbrev pub scan : Bytes → Bool → Scan
scan digits is_float = record { digits = digits; is_float = is_float }

-- Appends the run of digits that stands here.
unfoldable pub take_digits : Bytes → Bool → Source → Parsed Scan
take_digits out is_float s =
    let (digits, c) = take_run is_digit out s in ok (scan digits is_float) c

abbrev pub need_digits : Bytes → Bytes → Bool → Source → Parsed Scan
need_digits what out is_float s =
    if is_digit (peek s) then take_digits out is_float s else fail what s

unfoldable pub number_sign : Source → Parsed Bytes
number_sign s = if peek s == b'-' then ok (b'-' ∷ []) (advance s) else ok [] s

-- The integer part: `0` alone, or a run of digits.
unfoldable pub number_whole : Bytes → Source → Parsed Scan
unfolding take_digits
number_whole out s =
    if peek s == b'0'
    then if is_digit (peek (advance s))
      then fail (codes "invalid number, leading zeroes are not allowed") (advance s)
      else ok (scan (out ++ b'0' ∷ []) false) (advance s)
    else need_digits (codes "invalid number, expected a digit after '-'") out false s

unfoldable pub number_fraction : Scan → Source → Parsed Scan
unfolding take_digits
number_fraction n s =
    if peek s == b'.'
    then need_digits (codes "invalid number, expected a digit after the decimal point")
        (n.digits ++ b'.' ∷ []) true (advance s)
    else ok n s

abbrev pub is_sign : ℕ → Bool
is_sign c = c == b'+' || c == b'-'

unfoldable pub exponent_sign : Bytes → Source → Parsed Bytes
exponent_sign out s = if is_sign (peek s) then ok (out ++ peek s ∷ []) (advance s) else ok out s

unfoldable pub exponent_digits : Bytes → Source → Parsed Scan
unfolding take_digits
exponent_digits out s =
    need_digits (codes "invalid number, expected a digit in the exponent") out true s

-- The letter is kept as `e`.
unfoldable pub number_exponent : Scan → Source → Parsed Scan
unfolding exponent_sign exponent_digits
number_exponent n s =
    if peek s == b'e' || peek s == b'E'
    then exponent_sign (n.digits ++ b'e' ∷ []) (advance s) >>= exponent_digits
    else ok n s

-- `from_chars` on an optional `-` and digits, as `strtoll` reads them.
unfoldable pub integer_value : Bytes → Option ℤ → Value
integer_value digits none = large digits
integer_value digits (some v) = integer v

unfoldable pub number_value : Scan → Value
unfolding integer_value
number_value n =
    if n.is_float then double (strtod n.digits) else integer_value n.digits (strtoll n.digits)

-- What may not follow a number.
abbrev pub continues_number : ℕ → Bool
continues_number c = is_letter c || c == b'.' || c == b'_'

unfoldable pub number_end : Scan → Source → Parsed Value
unfolding number_value
number_end n s =
    if continues_number (peek s)
    then fail (codes "invalid number, unexpected " ++ describe_current s) s
    else ok (number_value n) s

unfoldable pub number : Source → Parsed Value
unfolding number_sign number_whole number_fraction number_exponent number_end
number s = number_sign s >>= number_whole >>= number_fraction >>= number_exponent >>= number_end

-- "unrecognized token", with the run of the bytes of a class from here on behind what was seen.
unfoldable pub unrecognized : {A : Type 0} → (ℕ → Bool) → Bytes → Source → Parsed A
unrecognized p seen s =
    let (token, c) = take_run p seen s in
    fail (codes "unrecognized token '" ++ (token ++ codes "', expected a value")) c

abbrev pub is_small_or_digit : ℕ → Bool
is_small_or_digit c = within b'a' b'z' c || is_digit c

-- The word `w` after the part of it that was seen, with no letter or digit behind it.
unfoldable pub word_on : {A : Type 0} → A → Bytes → Bytes → Source → Parsed A
word_on a seen [] s =
    if is_letter (peek s) || is_digit (peek s)
    then unrecognized is_small_or_digit seen s
    else ok a s
word_on a seen (c ∷ w) s =
    let more = word_on a (seen ++ c ∷ []) w (advance s) in
    if not (peek s == c) then unrecognized is_letter seen s else more

abbrev pub word : {A : Type 0} → A → Bytes → Source → Parsed A
word a w s = word_on a [] w s
