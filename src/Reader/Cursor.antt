-- ===== src/Reader/Cursor.antt =====
-- src/reader/Lexer.h and Lexer.cpp: the read position of a Lexer and the loops that move it.
-- `source_` and `pos_` are kept as the bytes from the position on (`rest`) and the position
-- (`pos`); the bytes before it are never read again. A C++ int counts lines and columns; the
-- counters are plain numbers here, for sources below 2 ^ 31 bytes.
pub mod Advances
pub mod Position
pub mod Ignored
use proto_clojure.Base.{
  ℕ, zero, suc, ◌+◌, ◌*◌, Bool, true, false, not, ◌&&◌, ◌||◌, Option, none, some, [], ◌∷◌, ◌++◌,
  ltb, within, ◌==◌, if◌then◌else◌, length, take, Bytes,
}
use proto_clojure.Utf8.{is_continuation, decode_utf8}
use proto_clojure.Reader.UnicodeLetters.{is_symbol_letter}

pub record Cursor : Type 0 where
  pub rest : Bytes
  pub pos : ℕ
  pub line : ℕ
  pub column : ℕ

abbrev pub is_nil : Bytes → Bool
is_nil [] = true
is_nil (b ∷ bs) = false

abbrev pub first_byte : Bytes → ℕ
first_byte [] = 0
first_byte (b ∷ bs) = b

abbrev pub second_byte : Bytes → ℕ
second_byte [] = 0
second_byte (b ∷ bs) = first_byte bs

abbrev pub eof : Cursor → Bool
eof c = is_nil c.rest

-- The byte at the position; the callers have checked `eof`.
abbrev pub current : Cursor → ℕ
current c = first_byte c.rest

abbrev pub lookahead : Cursor → ℕ
lookahead c = second_byte c.rest

unfoldable pub advance_on : Bytes → Cursor → Cursor
advance_on [] c = c
advance_on (b ∷ bs) c = record {
  rest = bs;
  pos = c.pos + 1;
  line = if b == b'\n' then c.line + 1 else c.line;
  column = if b == b'\n' then 1 else if not (is_continuation b) then c.column + 1 else c.column;
}

unfoldable pub advance : Cursor → Cursor
unfolding advance_on
advance c = advance_on c.rest c

-- `for (i = 0; i < len; ++i) advance();`
unfoldable pub advance_by : ℕ → Cursor → Cursor
advance_by zero c = c
advance_by (suc n) c = advance_by n (advance c)

-- `while (!eof() && test(current())) { out += current(); advance(); }`, on fuel for the bytes left.
unfoldable pub take_while : ℕ → (ℕ → Bool) → Bytes → Cursor → Bytes × Cursor
take_while zero test out c = (out, c)
take_while (suc fuel) test out c =
    let more = take_while fuel test (out ++ current c ∷ []) (advance c) in
    if not (eof c) && test (current c) then more else (out, c)

-- The loop over whole characters: `len` gives the byte length of the character at the cursor, with
-- what was read before it; 0 ends the loop.
unfoldable pub take_chars : ℕ → (Bytes → Cursor → ℕ) → Bytes → Cursor → Bytes × Cursor
take_chars zero len out c = (out, c)
take_chars (suc fuel) len out c =
    let n = len out c in
    let more = take_chars fuel len (out ++ take n c.rest) (advance_by n c) in
    if eof c || n == 0 then (out, c) else more

unfoldable pub is_blank : ℕ → Bool
is_blank c = c == b' ' || c == b'\t' || c == b'\r' || c == b'\n' || c == b','

-- A comment begins here: `;`, or `#!`.
unfoldable pub at_comment : Cursor → Bool
at_comment c = current c == b';' || (current c == b'#' && lookahead c == b'!')

-- `while (!eof() && current() != '\n') advance();`
unfoldable pub skip_line : ℕ → Cursor → Cursor
skip_line zero c = c
skip_line (suc fuel) c =
    let more = skip_line fuel (advance c) in
    if not (eof c) && not (current c == b'\n') then more else c

-- The loop of `skipWhitespaceAndComments`, on fuel for the bytes left.
unfoldable pub skip_loop : ℕ → Cursor → Cursor
unfolding is_blank at_comment
skip_loop zero c = c
skip_loop (suc fuel) c =
    let blank = skip_loop fuel (advance c) in
    let comment = skip_loop fuel (skip_line (length c.rest) c) in
    if eof c then c else if is_blank (current c) then blank else if at_comment c then comment else c

unfoldable pub skip_whitespace_and_comments : Cursor → Cursor
unfolding skip_loop skip_line
skip_whitespace_and_comments c = skip_loop (length c.rest) c

-- `std::isdigit`, `isalpha` and `isalnum` in the C locale.
abbrev pub is_digit : ℕ → Bool
is_digit = within b'0' b'9'

abbrev pub is_alpha : ℕ → Bool
is_alpha c = within b'a' b'z' c || within b'A' b'Z' c

abbrev pub is_alnum : ℕ → Bool
is_alnum c = is_alpha c || is_digit c

unfoldable pub is_ascii_symbol_char : ℕ → Bool
is_ascii_symbol_char c =
    is_alnum c
    || c == b'*'
    || c == b'+'
    || c == b'!'
    || c == b'-'
    || c == b'_'
    || c == b'\''
    || c == b'?'
    || c == b'<'
    || c == b'>'
    || c == b'='
    || c == b'.'
    || c == b'/'
    || c == b':'
    || c == b'&'
    || c == b'$'
    || c == b'%'

unfoldable pub letter_length : Option (ℕ × ℕ) → ℕ
letter_length none = 0
letter_length (some (len, cp)) = if ltb 0 len && is_symbol_letter cp then len else 0

-- `symbolCharLength` at the bytes from a position on.
unfoldable pub symbol_char_length : Bytes → ℕ
unfolding is_ascii_symbol_char letter_length
symbol_char_length s =
    let c = first_byte s in
    if ltb c 0x80 then if is_ascii_symbol_char c then 1 else 0 else letter_length (decode_utf8 s)
