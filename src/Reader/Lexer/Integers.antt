-- ===== src/Reader/Lexer/Integers.antt =====
-- src/reader/Lexer.cpp: the integer literals.
use proto_clojure.Base.{
  ℕ, zero, suc, ◌+◌, ◌-◌, ◌*◌, ◌/◌, ◌%◌, ◌^◌, ◌≤◌, ◌<◌, ◌≡◌, refl, subst, ap, sym, ◌∙◌, true, false,
  not, ◌&&◌, ◌||◌, some, [], ◌∷◌, ◌++◌, arith, ltb, ◌==◌, lt→ltb, append-nil, append_assoc,
  if_split, Bool-cases, inl, inr, length, length-append, Bytes, pos, All, IsDigit, decimal,
  decimal_on, decimal_on-digits,
}
use proto_clojure.Reader.Cursor.{
  Cursor, is_nil, first_byte, is_digit, eof, current, lookahead, advance, take_while,
}
use proto_clojure.Reader.Lexer.{Lexer, next, scan_token}
use proto_clojure.Reader.Lexer.Literals.{
  skip-byte, digit-no_blank, at_comment-byte, lex_token-digit,
}
use proto_clojure.Reader.Lexer.Progress.{next_scans}
use proto_clojure.Reader.Number.{
  lex_number, finish_number, number_token, with_value, strtoll, scan_fraction, scan_integer,
  scan_of, take_digits, trail_length, decimal_value,
}
use proto_clojure.Reader.Token.{Token, token_at, integer}

-- The bytes of a cursor after a digit.
advance-digit : (c : Cursor) (d : ℕ) (rest : Bytes) → c.rest ≡ d ∷ rest → (advance c).rest ≡ rest
unfolding advance
advance-digit c d rest h = rw h refl

IsDigit-is_digit : (d : ℕ) → IsDigit d → is_digit d ≡ true
IsDigit-is_digit d h = ground arith

take_digits_lem :
    (fuel : ℕ) (out ds rest : Bytes) (c : Cursor)
    → c.rest ≡ ds ++ rest
    → All IsDigit ds
    → is_digit (first_byte rest) ≡ false
    → length ds ≤ fuel
    → ((take_while fuel is_digit out c).0 ≡ out ++ ds)
      × ((take_while fuel is_digit out c).1.rest ≡ rest)
unfolding take_while
take_digits_lem zero out [] rest c h all e l = (sym (append-nil out), h)
take_digits_lem (suc fuel) out [] rest c h all e l =
    let stop : is_digit (current c) ≡ false = ap (λ x. is_digit (first_byte x)) h ∙ e in
    ground (arith, stop, h, append-nil out)
take_digits_lem zero out (d ∷ ds) rest c h all e l = absurd (omega arith)
take_digits_lem (suc fuel) out (d ∷ ds) rest c h all e l =
    let (read, left) =
      take_digits_lem fuel (out ++ d ∷ []) ds rest (advance c) (advance-digit c d (ds ++ rest) h)
        all.1 e (omega arith) in
    let first : current c ≡ d = ap first_byte h in
    let go_on : (not (eof c) && is_digit (current c)) ≡ true =
      ap (λ x. not (is_nil x) && is_digit (first_byte x)) h ∙ IsDigit-is_digit d all.0 in
    rw (go_on, first) (read ∙ append_assoc out (d ∷ []) ds, left)

-- The byte behind a literal continues none.
ends_lem :
    (rest : Bytes)
    → trail_length rest ≡ 0
    → (is_digit (first_byte rest) ≡ false)
      × ((first_byte rest == b'.') ≡ false)
      × ((first_byte rest == b'e') ≡ false)
      × ((first_byte rest == b'E') ≡ false)
      × ((first_byte rest == b'N') ≡ false)
unfolding trail_length
ends_lem rest h = ground arith

-- A scan that stands in front of such a byte is the whole of an integer literal.
finish_number_lem :
    (ds : Bytes) (c : Cursor) (line column : ℕ)
    → trail_length c.rest ≡ 0
    → finish_number (scan_of false (ds, c)) line column ≡ (number_token false ds line column, c)
unfolding finish_number
finish_number_lem ds c line column h =
    let (_, _, _, _, no_suffix) = ends_lem c.rest h in
    let big : (not (eof c) && current c == b'N') ≡ false = ground (arith, no_suffix) in
    rw (big, h) (ground arith)

lex_number_integer :
    (ds : Bytes) (c d : Cursor)
    → take_digits [] c ≡ (ds, d)
    → trail_length d.rest ≡ 0
    → lex_number false c ≡ (number_token false ds c.line c.column, d)
unfolding lex_number scan_integer scan_fraction
lex_number_integer ds c d e h =
    let (_, point, small, capital, _) = ends_lem d.rest h in
    let no_point : (not (eof d) && current d == b'.' && is_digit (lookahead d)) ≡ false =
      ground (arith, point) in
    let no_exponent : (not (eof d) && (current d == b'e' || current d == b'E')) ≡ false =
      ground (arith, small, capital) in
    rw (e, no_point, no_exponent) (finish_number_lem ds d c.line c.column h)

decimal_value-append :
    (acc d : ℕ) (ds : Bytes)
    → decimal_value acc (ds ++ d ∷ []) ≡ decimal_value acc ds * 10 + (d - 48)
unfolding decimal_value
decimal_value-append acc d [] = refl
decimal_value-append acc d (c ∷ ds) = decimal_value-append (acc * 10 + (c - 48)) d ds

pub decimal_value-decimal_on : (fuel n : ℕ) → n < fuel → decimal_value 0 (decimal_on fuel n) ≡ n
unfolding decimal_on decimal_value
decimal_value-decimal_on zero n h = elim h [ ]
decimal_value-decimal_on (suc fuel) n h =
    if_split (λ ds. decimal_value 0 ds ≡ n) (ltb n 10) (λ e. ground arith)
      (λ e.
        decimal_value-append 0 (48 + n % 10) (decimal_on fuel (n / 10))
        ∙ omega (arith, decimal_value-decimal_on fuel (n / 10) (ground arith)))

pub strtoll-digits :
    (d : ℕ) (ds : Bytes)
    → IsDigit d
    → decimal_value 0 (d ∷ ds) < 2 ^ 63
    → strtoll (d ∷ ds) ≡ some (pos (decimal_value 0 (d ∷ ds)))
unfolding strtoll
strtoll-digits d ds h l =
    let no_sign : (d == b'-') ≡ false = ground arith in
    rw (no_sign, lt→ltb (decimal_value 0 (d ∷ ds)) (2 ^ 63) l) refl

pub decimal_on-front :
    (fuel n : ℕ) → n < fuel → (d : ℕ) × (ds : Bytes) × (decimal_on fuel n ≡ d ∷ ds)
unfolding decimal_on
decimal_on-front zero n h = elim h [ ]
decimal_on-front (suc fuel) n h = elim (Bool-cases (ltb n 10)) [
  | inl e ↦ (48 + n, [], rw e refl)
  | inr e ↦
      let (d, ds, k) = decimal_on-front fuel (n / 10) (ground arith) in
      (d, ds ++ (48 + n % 10) ∷ [], rw (e, k) refl)
]

-- The token of an integer that a long long holds.
abbrev pub integer_token : ℕ → ℕ → ℕ → Token
integer_token n line column = record (token_at integer (decimal n) line column) {
  int_value = pos n;
}

number_token-digits :
    (n d : ℕ) (ds : Bytes) (line column : ℕ)
    → decimal n ≡ d ∷ ds
    → n < 2 ^ 63
    → number_token false (d ∷ ds) line column ≡ integer_token n line column
unfolding number_token with_value
number_token-digits n d ds line column e small =
    let all = subst (All IsDigit) e (decimal_on-digits (suc n) n) in
    let value : decimal_value 0 (d ∷ ds) ≡ n =
      ap (decimal_value 0) (sym e) ∙ decimal_value-decimal_on (suc n) n (omega arith) in
    rw (strtoll-digits d ds all.0 (omega (arith, value, small)), value) (rw e refl)

-- With no token peeked, in front of the decimal digits of a number below 2^63 and then no byte
-- that continues a malformed number, `next` gives the integer token with that value and those
-- digits, at the first of them, and stops behind the last.
pub next-decimal :
    (l : Lexer) (n : ℕ) (rest : Bytes)
    → l.has_peek ≡ false
    → l.cursor.rest ≡ decimal n ++ rest
    → trail_length rest ≡ 0
    → n < 2 ^ 63
    → ((next l).0 ≡ integer_token n l.cursor.line l.cursor.column) × ((next l).1.cursor.rest ≡ rest)
unfolding scan_token
next-decimal l n rest p h ends small =
    let c = l.cursor in
    let (d, ds, e) = decimal_on-front (suc n) n (omega arith) in
    let all = subst (All IsDigit) e (decimal_on-digits (suc n) n) in
    let q : c.rest ≡ d ∷ (ds ++ rest) = h ∙ ap (λ x. x ++ rest) e in
    let digit = IsDigit-is_digit d all.0 in
    let enough = ap length q ∙ ap suc (length-append ds rest) in
    let (read, left) =
      take_digits_lem (length c.rest) [] (d ∷ ds) rest c q all (ends_lem rest ends).0
        (omega (arith, enough)) in
    let behind = (take_digits [] c).1 in
    let lexed =
      lex_number_integer (d ∷ ds) c behind (ap (λ x. (x, behind)) read)
        (ap trail_length left ∙ ends) in
    let skip =
      skip-byte c d (ds ++ rest) q (digit-no_blank d digit)
        (at_comment-byte c d (ds ++ rest) q (ground arith) (ground arith)) in
    let (t, k, _) = next_scans l p in
    rw
      (
        t,
        k,
        skip,
        lex_token-digit l.prev_returned_kind (not (c.pos == c.pos)) c d (ds ++ rest) q digit,
        lexed,
      )
      (number_token-digits n d ds c.line c.column e small, left)
