-- ===== src/Reader/Lexer/Tests.antt =====
-- src/reader/Lexer.cpp: the theorems on the lexer at small sources.
use proto_clojure.Base.{
  decimal_on, ℕ, ◌+◌, ◌≤◌, ◌<◌, ◌≡◌, ◌↔◌, refl, true, false, [], ◌∷◌, map, length, Bytes, codes,
  arith,
}
use proto_clojure.Reader.Cursor.{
  Cursor, skip_whitespace_and_comments, advance, advance_by, take_chars, take_while,
  symbol_char_length,
}
use proto_clojure.Reader.Number.{lex_number, trail_length}
use proto_clojure.Reader.Lexer.Integers.{integer_token, next-decimal}
use proto_clojure.Reader.Symbols.{lex_symbol_or_punct}
use proto_clojure.Reader.Cursor.Advances.{Advances, left}
use proto_clojure.Reader.Cursor.Ignored.{is_ignored}
use proto_clojure.Reader.Lexer.{Lexer, make_lexer, next, peek, tokens, prev_ends_operand}
use proto_clojure.Reader.Lexer.Literals.{next_number_place}
use proto_clojure.Reader.Lexer.Peek.{Same, peek-next}
use proto_clojure.Reader.Lexer.Progress.{next_end_iff, next_progress, next_ahead}
use proto_clojure.Reader.Lexer.Stream.{
  IsTerminated, tokens-IsTerminated, ArePlaced, tokens-ArePlaced,
}
use proto_clojure.Reader.Token.{Token, is_end}

-- (def x -42)
abbrev source : Bytes
source = codes "(def x -42)"

abbrev place : Token → Bytes × ℕ × ℕ
place t = (t.text, t.line, t.column)

-- The literal stands in the column of its first digit, behind the sign.
source_places :
    map place (tokens 20 (make_lexer source))
    ≡ (codes "(", 1, 1)
      ∷ (codes "def", 1, 2)
      ∷ (codes "x", 1, 6)
      ∷ (codes "-42", 1, 9)
      ∷ (codes ")", 1, 11)
      ∷ ([], 1, 12)
      ∷ []
unfolding tokens skip_whitespace_and_comments advance lex_symbol_or_punct symbol_char_length
    take_chars advance_by prev_ends_operand lex_number take_while
source_places = refl

tokens-IsTerminated_example :
    IsTerminated (tokens 12 (make_lexer source))
    × (length (tokens 12 (make_lexer source)) ≤ length source + 1)
tokens-IsTerminated_example = tokens-IsTerminated source 12 (omega arith)

tokens-ArePlaced_example : ArePlaced source (tokens 12 (make_lexer source))
tokens-ArePlaced_example = tokens-ArePlaced source 12

abbrev lexer : Lexer
lexer = make_lexer (codes " ; a comment\n-7")

next_end_iff_example :
    (is_end (next lexer).0.kind ≡ true) ↔ (is_ignored false lexer.cursor.rest ≡ true)
next_end_iff_example = next_end_iff lexer refl

-- A comma and two comments are ignored.
ignored_run : is_ignored false (codes ", #! x ;\n\t; y") ≡ true
ignored_run = refl

next_progress_example : left (next lexer).1.cursor < left lexer.cursor
unfolding next skip_whitespace_and_comments advance prev_ends_operand lex_number take_while
next_progress_example = next_progress lexer refl refl

next_ahead_example :
    Advances lexer.cursor (next lexer).1.cursor
    × ((place : Cursor) × Advances lexer.cursor place
        × Advances place (next lexer).1.cursor
        × ((next lexer).0.line ≡ place.line)
        × ((next lexer).0.column ≡ place.column))
next_ahead_example = next_ahead lexer refl

peek-next_example :
    (peek (peek lexer).1 ≡ peek lexer)
    × ((next (peek lexer).1).0 ≡ (next lexer).0)
    × Same (next (peek lexer).1).1 (next lexer).1
peek-next_example = peek-next lexer refl

abbrev negative : Lexer
negative = make_lexer (codes "-7")

next_number_place_example :
    (negative.cursor.rest ≡ codes "7"
      → ((next negative).0.line ≡ 1) × ((next negative).0.column ≡ 1))
    × (prev_ends_operand negative.prev_returned_kind ≡ false
        → negative.cursor.rest ≡ codes "-7"
        → ((next negative).0.line ≡ 1) × ((next negative).0.column ≡ 2))
next_number_place_example = next_number_place negative b'7' [] refl refl

abbrev number : Lexer
number = make_lexer (codes "2048)")

next-decimal_example :
    ((next number).0 ≡ integer_token 2048 1 1) × ((next number).1.cursor.rest ≡ codes ")")
unfolding decimal_on trail_length symbol_char_length
next-decimal_example = next-decimal number 2048 (codes ")") refl refl refl (omega arith)
