-- ===== src/Reader/Lexer.antt =====
-- src/reader/Lexer.h and Lexer.cpp: the class Lexer, its `next` and its `peek`.
pub mod Peek
pub mod Progress
pub mod Literals
pub mod Integers
pub mod Stream
mod Tests
use proto_clojure.Base.{
  ℕ, zero, suc, Bool, true, false, not, ◌&&◌, ◌||◌, Option, none, some, List, [], ◌∷◌, ◌==◌,
  if◌then◌else◌, length, Bytes,
}
use proto_clojure.Reader.Cursor.{
  Cursor, eof, current, lookahead, is_digit, advance, skip_whitespace_and_comments,
}
use proto_clojure.Reader.Number.{lex_number}
use proto_clojure.Reader.Strings.{lex_string}
use proto_clojure.Reader.Symbols.{lex_symbol_or_punct}
use proto_clojure.Reader.Token.{
  TokenKind, integer, float, ratio, string, char, symbol, keyword, nil, true_kind, false_kind,
  l_paren, r_paren, l_bracket, r_bracket, l_brace, r_brace, at, end_of_file, is_end, Token,
  token_at,
}

-- `peekTok_` is read only while `has_peek` is set.
pub record Lexer : Type 0 where
  pub cursor : Cursor
  pub has_peek : Bool
  pub peek_token : Token
  pub prev_returned_kind : TokenKind

abbrev pub make_lexer : Bytes → Lexer
make_lexer source = record {
  cursor = record { rest = source; pos = 0; line = 1; column = 1 };
  has_peek = false;
  peek_token = token_at end_of_file [] 1 1;
  prev_returned_kind = end_of_file;
}

unfoldable pub prev_ends_operand : TokenKind → Bool
prev_ends_operand integer = true
prev_ends_operand float = true
prev_ends_operand ratio = true
prev_ends_operand string = true
prev_ends_operand char = true
prev_ends_operand symbol = true
prev_ends_operand keyword = true
prev_ends_operand nil = true
prev_ends_operand true_kind = true
prev_ends_operand false_kind = true
prev_ends_operand r_paren = true
prev_ends_operand r_bracket = true
prev_ends_operand r_brace = true
prev_ends_operand _ = false

-- The single-character tokens.
unfoldable pub single_kind : ℕ → Option TokenKind
single_kind c =
    if c == b'('
    then some l_paren
    else if c == b')'
    then some r_paren
    else if c == b'['
    then some l_bracket
    else if c == b']'
    then some r_bracket
    else if c == b'{'
    then some l_brace
    else if c == b'}'
    then some r_brace
    else if c == b'@'
    then some at
    else none

-- A `-` that is the sign of a literal.
abbrev pub is_sign : TokenKind → Bool → Cursor → Bool
is_sign prev space_before c =
    current c == b'-' && is_digit (lookahead c) && (not (prev_ends_operand prev) || space_before)

-- The token that begins at a byte which is no single-character token.
unfoldable pub lex_other : TokenKind → Bool → Cursor → Token × Cursor
lex_other prev space_before c =
    if current c == b'"'
    then lex_string c
    else if is_digit (current c)
    then lex_number false c
    else if is_sign prev space_before c
    then lex_number true (advance c)
    else lex_symbol_or_punct c

unfoldable pub lex_from : TokenKind → Bool → Cursor → Option TokenKind → Token × Cursor
unfolding lex_other
lex_from prev space_before c (some kind) =
    (token_at kind (current c ∷ []) c.line c.column, advance c)
lex_from prev space_before c none = lex_other prev space_before c

-- The token that begins at the cursor, the whitespace already skipped.
unfoldable pub lex_token : TokenKind → Bool → Cursor → Token × Cursor
unfolding single_kind lex_from
lex_token prev space_before c =
    if eof c
    then (token_at end_of_file [] c.line c.column, c)
    else lex_from prev space_before c (single_kind (current c))

-- `nextImpl_` where no token is peeked.
unfoldable pub scan_token : TokenKind → Cursor → Token × Cursor
unfolding lex_token
scan_token prev c =
    let d = skip_whitespace_and_comments c in lex_token prev (not (d.pos == c.pos)) d

unfoldable pub next_impl : Lexer → Token × Lexer
unfolding scan_token
next_impl l =
    let (t, c) = scan_token l.prev_returned_kind l.cursor in
    if l.has_peek
    then (l.peek_token, record l { has_peek = false })
    else (t, record l { cursor = c })

unfoldable pub next : Lexer → Token × Lexer
unfolding next_impl
next l = let (t, m) = next_impl l in (t, record m { prev_returned_kind = t.kind })

unfoldable pub peek : Lexer → Token × Lexer
unfolding next
peek l =
    let (t, m) = next l in
    if not l.has_peek then (t, record m { peek_token = t; has_peek = true }) else (l.peek_token, l)

-- `next` until the end of the source, the end included.
unfoldable pub tokens : ℕ → Lexer → List Token
unfolding next
tokens zero l = []
tokens (suc fuel) l =
    let (t, m) = next l in let rest = tokens fuel m in t ∷ (if is_end t.kind then [] else rest)
