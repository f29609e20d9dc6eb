-- ===== src/Reader/Reads/Tests.antt =====
-- src/reader/Reader.cpp: runs of the reader, and instances of what is proved of it.
use proto_clojure.Base.{
  ◌≡◌, ◌≢◌, refl, Bool, true, false, Option, none, some, [], Bytes, codes, equal, pos, decimal_on,
}
use proto_clojure.Reader.Forms.{
  Form, nil_form, long, text, named, list, vector, hash_map, Forms, end, item, Environment,
  ReaderState, Read, done, failed, out_of_fuel, next_token, ◌>>=◌,
}
use proto_clojure.Reader.Reads.Edn.{edn_reads_as_code}
use proto_clojure.Reader.Reads.Ends.{read_source_ends}
use proto_clojure.Reader.Reads.Formed.{read_source-AreFormed}
use proto_clojure.Reader.Reads.Literals.{KeepsLiterals, AreFormed}
use proto_clojure.Reader.Reads.{read_source, read_all, make_reader, read_from_token}
use proto_clojure.Reader.Parts.{quote_result}
use proto_clojure.Reader.SyntaxQuote.{syntax_quote}
use proto_clojure.Reader.Token.{token_kind_name}
use proto_clojure.Reader.Cursor.{
  skip_whitespace_and_comments, advance, symbol_char_length, take_chars, advance_by, take_while,
}
use proto_clojure.Reader.Lexer.{next}
use proto_clojure.Reader.Number.{lex_number}
use proto_clojure.Reader.Strings.{lex_string}
use proto_clojure.Reader.Symbols.{lex_symbol_or_punct}

abbrev same_name : Form → Form → Bool
same_name (named s) (named t) = equal s t
same_name _ _ = false

abbrev environment : Environment
environment = record {
  map_order = λ fs. fs;
  set_order = λ fs. fs;
  key_equals = same_name;
  resolver = none;
  pattern_error = λ s. none;
  integer_string = λ s. s;
}

environment-KeepsLiterals : KeepsLiterals environment
environment-KeepsLiterals = record { maps = λ fs h. h; sets = λ fs h. h }

abbrev source : Bytes
source = codes "(f #_ x [1 {:k \"v\"}]) nil"

abbrev forms : Forms
forms =
    item
      (list (
        item (named (codes "f")) (
          item
            (vector (
              item (long (pos 1))
                (item (hash_map (item (named (codes ":k")) (item (text (codes "v")) end))) end)))
            end)))
      (item nil_form end)

-- The forms that are read, without the state.
abbrev forms_of : Read Forms → Option Forms
forms_of (done fs st) = some fs
forms_of _ = none

abbrev message_of : Read Forms → Bytes
message_of (failed e) = e.message
message_of _ = []

source_run : (edn : Bool) → forms_of (read_source environment edn source 0) ≡ some forms
unfolding read_all next_token next skip_whitespace_and_comments ◌>>=◌ read_from_token advance
    lex_symbol_or_punct symbol_char_length take_chars advance_by lex_number take_while lex_string
source_run true = refl
source_run false = refl

abbrev state_of : Read Forms → ReaderState
state_of (done fs st) = st
state_of _ = make_reader [] 0

done_of : (r : Read Forms) (fs : Forms) → forms_of r ≡ some fs → r ≡ done fs (state_of r)
done_of (done gs st) fs e = cc
done_of (failed x) fs e = cc
done_of out_of_fuel fs e = cc

source_read :
    (edn : Bool)
    → read_source environment edn source 0
      ≡ done forms (state_of (read_source environment edn source 0))
source_read edn = done_of (read_source environment edn source 0) forms (source_run edn)

-- A bracket that closes nothing.
mismatched_run :
    message_of (read_source environment false (codes "[1)") 0) ≡ codes "mismatched RParen"
unfolding read_all next_token next skip_whitespace_and_comments ◌>>=◌ read_from_token advance
    lex_symbol_or_punct symbol_char_length take_chars advance_by lex_number take_while lex_string
    token_kind_name
mismatched_run = refl

repeated_run :
    message_of (read_source environment false (codes "#{a b a}") 0) ≡ codes "Duplicate key: a"
unfolding read_all next_token next skip_whitespace_and_comments ◌>>=◌ read_from_token advance
    lex_symbol_or_punct symbol_char_length take_chars advance_by lex_number take_while lex_string
repeated_run = refl

-- #(f %2) and a syntax-quote
literal_run :
    forms_of (read_source environment false (codes "#(f %2)`~a") 3)
    ≡ some (
        item
          (list (
            item (named (codes "fn*")) (
              item
                (vector (item (named (codes "p1__4#")) (item (named (codes "p2__3#")) end)))
                (item (list (item (named (codes "f")) (item (named (codes "p2__3#")) end))) end))))
          (item (named (codes "a")) end))
unfolding read_all next_token next skip_whitespace_and_comments ◌>>=◌ read_from_token advance
    lex_symbol_or_punct symbol_char_length take_chars advance_by lex_number take_while lex_string
    decimal_on syntax_quote quote_result
literal_run = refl

read_source_ends_example : read_source environment false (codes "(a [") 0 ≢ out_of_fuel
read_source_ends_example = read_source_ends environment false (codes "(a [") 0

edn_reads_as_code_example :
    (read_source environment false source 0
      ≡ done forms (state_of (read_source environment true source 0)))
    × ((state_of (read_source environment true source 0)).gensym ≡ 0)
edn_reads_as_code_example =
    edn_reads_as_code environment source 0 forms (state_of (read_source environment true source 0))
      (source_read true)

read_source-AreFormed_example : AreFormed environment forms
read_source-AreFormed_example =
    read_source-AreFormed environment false source 0 forms
      (state_of (read_source environment false source 0)) environment-KeepsLiterals
      (source_read false)
