-- ===== src/Printer/Tests.antt =====
-- src/runtime/Primitives.cpp: the round trip of strings at a text with an escape.
use proto_clojure.Base.{◌≡◌, refl, codes, [], ◌++◌}
use proto_clojure.Printer.{append_readable_string}
use proto_clojure.Printer.RoundTrip.{next-append_readable_string}
use proto_clojure.Reader.Lexer.{Lexer, make_lexer, next}
use proto_clojure.Reader.Token.{string, token_at}

abbrev printed : Lexer
printed = make_lexer (append_readable_string [] (codes "say \"hi\"\n") ++ codes " x")

next-append_readable_string_example :
    ((next printed).0 ≡ token_at string (codes "say \"hi\"\n") 1 1)
    × ((next printed).1.cursor.rest ≡ codes " x")
next-append_readable_string_example =
    next-append_readable_string printed (codes "say \"hi\"\n") (codes " x") refl refl
