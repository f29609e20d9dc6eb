-- ===== src/Json/Texts.antt =====
-- src/runtime/Json.cpp: `Parser::string` and `Parser::hex4`.
use proto_clojure.Base.{
  ℕ, zero, suc, ◌+◌, ◌-◌, ◌*◌, Bool, not, ◌&&◌, ◌||◌, Option, none, some, [], ◌∷◌, ◌++◌, ltb, leb,
  within, ◌==◌, if◌then◌else◌, length, Bytes, codes,
}
use proto_clojure.Json.Source.{
  Source, peek, advance, newline, end_of_input, Parsed, ok, out_of_fuel, fail, ◌>>=◌, take_run,
  is_digit,
}
use proto_clojure.Utf8.{append_utf8}

unfoldable pub hex_digit : ℕ → Option ℕ
hex_digit h =
    if is_digit h
    then some (h - b'0')
    else if within b'a' b'f' h
    then some (h - b'a' + 10)
    else if within b'A' b'F' h
    then some (h - b'A' + 10)
    else none

unfoldable pub hex_step : Option ℕ → ℕ → Source → Parsed ℕ
hex_step none v s = fail (codes "invalid \\u escape, expected four hexadecimal digits") s
hex_step (some d) v s = ok (v * 16 + d) (advance s)

-- The digits of `hex4` that are left to read.
unfoldable pub hex_digits : ℕ → ℕ → Source → Parsed ℕ
unfolding hex_step
hex_digits zero v s = ok v s
hex_digits (suc n) v s = hex_step (hex_digit (peek s)) v s >>= hex_digits n

abbrev pub hex4 : Source → Parsed ℕ
hex4 s = hex_digits 4 0 s

-- A byte that the fast path copies.
abbrev pub is_plain : ℕ → Bool
is_plain b = not (b == b'"') && not (b == b'\\') && not (b == b'\n')

unfoldable pub simple_escape : ℕ → Option ℕ
simple_escape e =
    if e == b'"' || e == b'\\' || e == b'/'
    then some e
    else if e == b'b'
    then some 8
    else if e == b'f'
    then some 12
    else if e == b'n'
    then some 10
    else if e == b'r'
    then some 13
    else if e == b't'
    then some 9
    else none

unfoldable pub invalid_escape : ℕ → Bytes
invalid_escape e =
    if ltb e 0x20 || leb 0x80 e
    then codes "invalid escape in a string"
    else codes "invalid escape '\\" ++ (e ∷ codes "' in a string")

abbrev pub unpaired : {A : Type 0} → Source → Parsed A
unpaired s = fail (codes "unpaired surrogate in a \\u escape") s

-- The value of a surrogate pair.
abbrev pub pair_value : ℕ → ℕ → ℕ
pair_value high low = 0x10000 + (high - 0xD800) * 0x400 + (low - 0xDC00)

unfoldable pub low_value : ℕ → ℕ → Source → Parsed ℕ
low_value high low s =
    if ltb low 0xDC00 || ltb 0xDFFF low then unpaired s else ok (pair_value high low) s

-- The second half of a pair, `\uXXXX` again.
unfoldable pub low_surrogate : ℕ → Source → Parsed ℕ
unfolding low_value
low_surrogate high s =
    if not (peek s == b'\\')
    then unpaired s
    else if not (peek (advance s) == b'u')
    then unpaired (advance s)
    else hex4 (advance (advance s)) >>= low_value high

unfoldable pub code_point : ℕ → Source → Parsed ℕ
unfolding low_surrogate
code_point cp s =
    if within 0xD800 0xDBFF cp
    then low_surrogate cp s
    else if within 0xDC00 0xDFFF cp
    then unpaired s
    else ok cp s

-- The bytes so far with those of a code point.
unfoldable pub push_code_point : Bytes → ℕ → Source → Parsed Bytes
push_code_point out cp s = ok (append_utf8 out cp) s

-- What an escape appends; the source stands behind the letter `e`.
unfoldable pub escape_from : Bytes → ℕ → Option ℕ → Source → Parsed Bytes
unfolding push_code_point code_point
escape_from out e (some b) s = ok (out ++ b ∷ []) s
escape_from out e none s =
    if e == b'u' then hex4 s >>= code_point >>= push_code_point out else fail (invalid_escape e) s

unfoldable pub escape : Bytes → Source → Parsed Bytes
unfolding escape_from
escape out s =
    if peek s == end_of_input
    then fail (codes "unexpected end of input inside a string") s
    else escape_from out (peek s) (simple_escape (peek s)) (advance s)

-- The byte behind a run of plain ones: the end, the closing quote, a line end or a backslash.
unfoldable pub string_stop : (Bytes → Source → Parsed Bytes) → Bytes → Source → Parsed Bytes
unfolding escape
string_stop more out s =
    let c = peek s in
    if c == end_of_input
    then fail (codes "unexpected end of input inside a string") s
    else if c == b'"'
    then ok out (advance s)
    else if c == b'\n'
    then more (out ++ b'\n' ∷ []) (newline (advance s))
    else escape out (advance s) >>= more

-- One round: the fast path over the plain bytes, then what stops it.
unfoldable pub string_round : (Bytes → Source → Parsed Bytes) → Bytes → Source → Parsed Bytes
unfolding string_stop
string_round more out s = let (run, c) = take_run is_plain out s in string_stop more run c

unfoldable pub string_loop : ℕ → Bytes → Source → Parsed Bytes
unfolding string_round
string_loop zero out s = out_of_fuel
string_loop (suc fuel) out s = string_round (string_loop fuel) out s

-- The contents of a string, behind its opening quote. A round consumes a byte.
abbrev pub string : Source → Parsed Bytes
string s = string_loop (suc (length s.rest)) [] s
