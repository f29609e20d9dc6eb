-- ===== src/Reader/Symbols.antt =====
-- src/reader/Lexer.cpp: `lexSymbolicValue` and `lexSymbolOrPunct`.
use proto_clojure.Base.{
  ℕ, zero, suc, ◌+◌, ◌-◌, ◌/◌, ◌%◌, not, ◌&&◌, ◌||◌, Option, none, some, [], ◌∷◌, ◌++◌, ltb, ◌==◌,
  if◌then◌else◌, length, take, Bytes, codes, equal,
}
use proto_clojure.Utf8.{decode_utf8}
use proto_clojure.Reader.Cursor.{
  Cursor, eof, current, lookahead, is_digit, is_alpha, is_nil, first_byte, advance, advance_by,
  take_chars, skip_whitespace_and_comments, symbol_char_length,
}
use proto_clojure.Reader.Strings.{lex_regex}
use proto_clojure.Reader.Token.{
  Token, token_at, float, symbol, quote, backtick, tilde, tilde_at, hash_l_brace, hash_l_paren,
  hash_underscore, error, Double, infinity, negative_infinity, quiet_nan,
}

-- The longest run of symbol characters.
abbrev pub take_symbol : Cursor → Bytes × Cursor
take_symbol c = take_chars (length c.rest) (λ _ d. symbol_char_length d.rest) [] c

abbrev pub error_at : Cursor → Cursor → Bytes → Token × Cursor
error_at start c text = (token_at error text start.line start.column, c)

unfoldable pub symbolic_double : Bytes → Option Double
symbolic_double name =
    if equal name (codes "Inf")
    then some infinity
    else if equal name (codes "-Inf")
    then some negative_infinity
    else if equal name (codes "NaN")
    then some quiet_nan
    else none

unfoldable pub symbolic_token : Cursor → Bytes × Cursor → Option Double → Token × Cursor
symbolic_token start (name, c) none = error_at start c (codes "Unknown symbolic value: " ++ name)
symbolic_token start (name, c) (some d) =
    (record (token_at float (codes "##" ++ name) start.line start.column) { double_value = d }, c)

-- `lexSymbolicValue`; the cursor stands at the first `#`.
unfoldable pub lex_symbolic_value : Cursor → Token × Cursor
unfolding symbolic_double symbolic_token
lex_symbolic_value c =
    let read = take_symbol (skip_whitespace_and_comments (advance (advance c))) in
    let name = read.0 in
    if is_nil name || first_byte name == b':' || is_digit (first_byte name)
    then error_at c read.1 (codes "Invalid token: ##" ++ name)
    else symbolic_token c read (symbolic_double name)

abbrev pub reserved : Cursor → Cursor → Bytes → Token × Cursor
reserved start c name = error_at start c (codes "reserved-for-later token: " ++ name)

-- The quoting reader macros; the cursor stands at the prefix.
unfoldable pub lex_quote : Cursor → Token × Cursor
lex_quote c =
    let d = advance c in
    if current c == b'\''
    then (token_at quote (codes "'") c.line c.column, d)
    else if current c == b'`'
    then (token_at backtick (codes "`") c.line c.column, d)
    else if not (eof d) && current d == b'@'
    then (token_at tilde_at (codes "~@") c.line c.column, advance d)
    else (token_at tilde (codes "~") c.line c.column, d)

-- The dispatch on the byte behind `#`.
unfoldable pub lex_dispatch : Cursor → Token × Cursor
unfolding lex_symbolic_value
lex_dispatch c =
    let la = lookahead c in
    let d = advance (advance c) in
    let tag = take_symbol (advance c) in
    if la == b'#'
    then lex_symbolic_value c
    else if la == b'{'
    then (token_at hash_l_brace (codes "#{") c.line c.column, d)
    else if la == b'"'
    then lex_regex c
    else if la == b'('
    then (token_at hash_l_paren (codes "#(") c.line c.column, d)
    else if la == b'_'
    then (token_at hash_underscore (codes "#_") c.line c.column, d)
    else if la == b'\''
    then reserved c d (b'#' ∷ la ∷ [])
    else if is_alpha la
    then error_at c tag.1 (codes "No reader function for tag " ++ tag.0)
    else reserved c (advance c) (codes "#")

-- An upper-case hexadecimal digit.
unfoldable pub hex_digit : ℕ → ℕ
hex_digit d = if ltb d 10 then b'0' + d else b'A' + (d - 10)

-- `%0*X`: the digits of `n`, at least `width` of them; the fuel bounds their number.
unfoldable pub hex_text : ℕ → ℕ → ℕ → Bytes
unfolding hex_digit
hex_text zero width n = []
hex_text (suc fuel) width n =
    let higher = hex_text fuel (width - 1) (n / 16) ++ hex_digit (n % 16) ∷ [] in
    if n == 0 && width == 0 then [] else higher

-- The error for a character that no token begins with.
unfoldable pub unexpected : Cursor → Option (ℕ × ℕ) → Token × Cursor
unfolding hex_text
unexpected c none =
    error_at c (advance c) (codes "invalid UTF-8 byte 0x" ++ hex_text 8 2 (current c))
unexpected c (some (len, cp)) =
    let code_point = if ltb 1 len then codes " (U+" ++ (hex_text 8 4 cp ++ codes ")") else [] in
    error_at c (advance_by len c)
      (codes "unexpected character: " ++ (take len c.rest ++ code_point))

-- `#` continues a symbol that has begun.
unfoldable pub symbol_body_length : Bytes → Cursor → ℕ
symbol_body_length s c =
    if not (is_nil s) && current c == b'#' then 1 else symbol_char_length c.rest

unfoldable pub lex_symbol : Cursor → Token × Cursor
unfolding symbol_body_length unexpected
lex_symbol c =
    let body = take_chars (length c.rest) symbol_body_length [] c in
    if symbol_char_length c.rest == 0
    then unexpected c (decode_utf8 c.rest)
    else (token_at symbol body.0 c.line c.column, body.1)

unfoldable pub lex_symbol_or_punct : Cursor → Token × Cursor
unfolding lex_quote lex_dispatch lex_symbol
lex_symbol_or_punct c =
    let b = current c in
    if b == b'\'' || b == b'`' || b == b'~'
    then lex_quote c
    else if b == b'^'
    then reserved c (advance c) (b ∷ [])
    else if b == b'#'
    then lex_dispatch c
    else lex_symbol c
