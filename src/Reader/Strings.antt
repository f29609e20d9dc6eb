-- ===== src/Reader/Strings.antt =====
-- src/reader/Lexer.cpp: `lexString` and `lexRegex`.
use proto_clojure.Base.{
  ℕ, zero, suc, ◌+◌, ◌-◌, ◌*◌, true, false, not, ◌&&◌, Option, none, some, [], ◌∷◌, ◌++◌, ltb,
  within, ◌==◌, if◌then◌else◌, length, Bytes, codes,
}
use proto_clojure.Utf8.{append_utf8}
use proto_clojure.Reader.Cursor.{Cursor, eof, current, lookahead, advance}
use proto_clojure.Reader.Token.{Token, token_at, string, regex, error}

unfoldable pub hex_value : ℕ → Option ℕ
hex_value h =
    if within b'0' b'9' h
    then some (h - b'0')
    else if within b'a' b'f' h
    then some (h - b'a' + 10)
    else if within b'A' b'F' h
    then some (h - b'A' + 10)
    else none

-- `hex4`, from `v` with that many digits to come. `none` for -1; the cursor stays at the byte that
-- is no digit.
unfoldable pub hex_digits : ℕ → ℕ → Cursor → Option ℕ × Cursor
unfolding hex_value
hex_digits zero v c = (some v, c)
hex_digits (suc n) v c = elim (if eof c then none else hex_value (current c)) [
  | none ↦ (none, c)
  | some d ↦ hex_digits n (v * 16 + d) (advance c)
]

-- The loop over at most three octal digits.
unfoldable pub octal_digits : ℕ → ℕ → Cursor → ℕ × Cursor
octal_digits zero v c = (v, c)
octal_digits (suc n) v c =
    let more = octal_digits n (v * 8 + (current c - b'0')) (advance c) in
    if not (eof c) && within b'0' b'7' (current c) then more else (v, c)

-- The outcome of one round of the loop: more text, or an error token.
pub data Piece : Type 0 where
  more : Bytes → Cursor → Piece
  bad : Token → Cursor → Piece

-- The escapes of one letter.
unfoldable pub simple_escape : ℕ → Option ℕ
simple_escape e =
    if e == b'n'
    then some b'\n'
    else if e == b't'
    then some b'\t'
    else if e == b'r'
    then some b'\r'
    else if e == b'b'
    then some 8
    else if e == b'f'
    then some 12
    else if e == b'\\'
    then some b'\\'
    else if e == b'"'
    then some b'"'
    else none

abbrev pub bad_escape : Cursor → Cursor → Bytes → Piece
bad_escape at c text = bad (token_at error text at.line at.column) c

abbrev pub unpaired : Bytes
unpaired = codes "Invalid unicode escape: unpaired surrogate (UTF-8 strings cannot hold one)"

-- Behind a high surrogate `cp`: a `\u` escape of a low surrogate must follow. `at` is the position
-- of the escape's letter.
unfoldable pub low_surrogate : Bytes → Cursor → ℕ → Option ℕ × Cursor → Piece
low_surrogate out at cp (none, c) = bad_escape at c unpaired
low_surrogate out at cp (some lo, c) =
    if within 0xDC00 0xDFFF lo
    then more (append_utf8 out (0x10000 + (cp - 0xD800) * 1024 + (lo - 0xDC00))) c
    else bad_escape at c unpaired

unfoldable pub unicode_escape : Bytes → Cursor → Option ℕ × Cursor → Piece
unfolding low_surrogate hex_digits
unicode_escape out at (none, c) =
    bad_escape at c (codes "Invalid unicode escape: \\u needs four hexadecimal digits")
unicode_escape out at (some cp, c) =
    if within 0xD800 0xDBFF cp
    then low_surrogate out at cp (
        if not (eof c) && current c == b'\\' && lookahead c == b'u'
        then hex_digits 4 0 (advance (advance c))
        else (none, c))
    else if within 0xDC00 0xDFFF cp
    then bad_escape at c unpaired
    else more (append_utf8 out cp) c

unfoldable pub octal_escape : Bytes → Cursor → ℕ × Cursor → Piece
octal_escape out at (v, c) =
    if ltb 255 v
    then bad_escape at c (codes "Octal escape sequence must be in range [0, 377]")
    else more (append_utf8 out v) c

-- The escape whose letter stands at the cursor.
unfoldable pub escape_letter : Bytes → Cursor → Option ℕ → Piece
unfolding unicode_escape octal_digits octal_escape
escape_letter out c (some b) = more (out ++ b ∷ []) (advance c)
escape_letter out c none =
    if current c == b'u'
    then unicode_escape out c (hex_digits 4 0 (advance c))
    else if within b'0' b'7' (current c)
    then octal_escape out c (octal_digits 3 0 c)
    else bad_escape c c (codes "Unsupported escape character: \\" ++ current c ∷ [])

-- One round of the loop of `lexString`, begun at `start`, in front of a byte other than `"`.
unfoldable pub string_piece : Cursor → Bytes → Cursor → Piece
unfolding simple_escape escape_letter
string_piece start out c =
    if current c == b'\\'
    then if eof (advance c)
      then bad_escape start (advance c) (codes "unterminated string escape")
      else escape_letter out (advance c) (simple_escape (current (advance c)))
    else more (out ++ current c ∷ []) (advance c)

-- The loop goes on behind a good piece.
unfoldable pub after_piece : (Bytes → Cursor → Token × Cursor) → Piece → Token × Cursor
after_piece loop (more out c) = loop out c
after_piece loop (bad t c) = (t, c)

-- The loop, on fuel for the bytes left, and what follows it.
unfoldable pub string_loop : ℕ → Cursor → Bytes → Cursor → Token × Cursor
unfolding string_piece after_piece
string_loop zero start out c =
    (token_at error (codes "unterminated string literal") start.line start.column, c)
string_loop (suc fuel) start out c = elim (eof c) [
  | true ↦ (token_at error (codes "unterminated string literal") start.line start.column, c)
  | false ↦ elim (current c == b'"') [
    | true ↦ (token_at string out start.line start.column, advance c)
    | false ↦ after_piece (string_loop fuel start) (string_piece start out c)
  ]
]

-- The cursor stands at the opening quote.
unfoldable pub lex_string : Cursor → Token × Cursor
unfolding string_loop
lex_string c = string_loop (length c.rest) c [] (advance c)

-- The loop of `lexRegex`: a backslash and the byte behind it are both kept.
unfoldable pub regex_loop : ℕ → Cursor → Bytes → Cursor → Token × Cursor
regex_loop zero start out c =
    (token_at error (codes "unterminated regular expression literal") start.line start.column, c)
regex_loop (suc fuel) start out c =
    let unterminated =
      token_at error (codes "unterminated regular expression literal") start.line start.column in
    let escaped =
      regex_loop fuel start (out ++ b'\\' ∷ current (advance c) ∷ []) (advance (advance c)) in
    let plain = regex_loop fuel start (out ++ current c ∷ []) (advance c) in
    if eof c
    then (unterminated, c)
    else if current c == b'"'
    then (token_at regex out start.line start.column, advance c)
    else if current c == b'\\'
    then if eof (advance c) then (unterminated, advance c) else escaped
    else plain

-- The cursor stands at the `#`.
unfoldable pub lex_regex : Cursor → Token × Cursor
unfolding regex_loop
lex_regex c = regex_loop (length c.rest) c [] (advance (advance c))
