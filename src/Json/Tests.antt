-- ===== src/Json/Tests.antt =====
-- src/runtime/Json.cpp: runs of the parser and the writer, and instances of what is proved of them.
use proto_clojure.Base.{
  ◌≡◌, ◌≢◌, refl, inl, true, false, Option, none, [], ◌∷◌, ◌++◌, arith, Bytes, codes, decimal_on,
  pos, negsuc,
}
use proto_clojure.Json.Ascii.{write_json-IsAscii}
use proto_clojure.Json.Escapes.{IsAscii}
use proto_clojure.Json.Documents.Primitives.{
  cheshire_defaults, data_json_defaults, parse_string-generate_string, read_str-write_str,
}
use proto_clojure.Json.Documents.{read_json-answers, read_json-extra}
use proto_clojure.Json.Parser.{parse_value, value, keywords}
use proto_clojure.Json.Numbers.{number, word_on}
use proto_clojure.Json.Texts.{string_loop, simple_escape, hex_digits, hex_digit}
use proto_clojure.Json.Read.{ignore, reject, read_json, raise, prim_parse_string, prim_read_str}
use proto_clojure.Json.Refusals.{AnswersIf, can_write, write_json-AnswersIf}
use proto_clojure.Json.Places.{IsBehindBlanks}
use proto_clojure.Json.RoundTrip.Image.{plain_read, IsData, image}
use proto_clojure.Json.RoundTrip.Images.{parse_value-write_json}
use proto_clojure.Json.RoundTrip.Numbers.{IsBehind}
use proto_clojure.Json.Source.{
  Source, make_source, ok, fail, describe_current, skip_whitespace, advance_on, ◌>>=◌, take_run_on,
}
use proto_clojure.Json.Strings.{WriteOptions, named_text}
use proto_clojure.Json.Writer.{plain_key, write_json, prim_generate_string, prim_write_str}
use proto_clojure.Json.{
  Value, null, boolean, integer, double, text, named, vector, set, object, nil, cons, end, entry,
  Flavor, data_json, finite, Runtime, answer, thrown, no_answer, ◌then_with◌,
}
use proto_clojure.Reader.Number.{decimal_value, strtoll}
use proto_clojure.Reader.Token.{strtod}
use proto_clojure.Utf8.{append_utf8}

-- A runtime whose maps keep every pair.
abbrev runtime : Runtime
runtime = record {
  assoc_pairs = λ es. es;
  double_kind = λ d. finite;
  format_double = λ d. codes "0.5";
  integer_string = λ t. t;
  print_value = λ v. codes "?";
  map_get = λ es name. none;
  type_name = λ v. codes "an atom";
  invoke = λ f args. f;
  is_keyword_fn = λ f. false;
  same = λ a b. false;
}

-- {:a [-42 "é\""], "b" #{nil}}
abbrev sample : Value
sample = object (
    entry (named (codes ":a"))
      (vector (cons (integer (negsuc 41)) (cons (text (0xC3 ∷ 0xA9 ∷ b'"' ∷ [])) nil)))
      (entry (text (codes "b")) (set (cons null nil)) end))

written_by_default :
    write_json runtime data_json_defaults sample
    ≡ answer (codes "{\"a\":[-42,\"\\u00e9\\\"\"],\"b\":[null]}")
unfolding write_json decimal_on
written_by_default = refl

abbrev options : WriteOptions
options = record cheshire_defaults { pretty = true }

written_pretty :
    write_json runtime options sample
    ≡ answer
        (codes "{\n  \"a\" : [ -42, \"" ++ 0xC3 ∷ 0xA9 ∷ codes "\\\"\" ],\n  \"b\" : [ null ]\n}")
unfolding write_json decimal_on
written_pretty = refl

-- A document with blanks, escapes, a surrogate pair and an exponent, its keys as keywords.
abbrev document : Bytes
document = codes " {\"k\\u0041\" :\n [1 , true,\"\\ud83d\\ude00\"], \"n\":-1.5E+3}"

document_run :
    read_json runtime
      (record plain_read { keys = keywords })
      data_json
      reject
      none
      (make_source document)
    ≡ answer (
        object (
          entry
            (named (codes ":kA"))
            (vector (
              cons
                (integer (pos 1))
                (cons (boolean true) (cons (text (0xF0 ∷ 0x9F ∷ 0x98 ∷ 0x80 ∷ [])) nil))))
            (entry (named (codes ":n")) (double (strtod (codes "-1.5e+3"))) end)))
unfolding read_json decimal_value skip_whitespace advance_on ◌>>=◌ parse_value value string_loop
    take_run_on simple_escape hex_digits hex_digit number word_on append_utf8 strtoll
document_run = refl

unclosed_run :
    prim_parse_string runtime (text (codes "[1,\n 2") ∷ [])
    ≡ thrown (codes "IOException") (
        codes
          "JSON error: unexpected end of input inside an array, expected ',' or ']' at line 2, column 3")
unfolding prim_parse_string decimal_on decimal_value ◌then_with◌ skip_whitespace ◌>>=◌ parse_value
    value advance_on number take_run_on fail
unclosed_run = refl

sample-IsData :
    (opts : WriteOptions) → named_text opts (codes ":a") ≡ codes "a" → IsData runtime opts sample
unfolding IsData append_utf8 plain_key named_text
sample-IsData opts e = (
  refl,
  (97 ∷ [], e, (inl (omega arith), tt)),
  (omega arith, ((0xE9 ∷ 34 ∷ [], refl, (inl (omega arith), (inl (omega arith), tt))), tt)),
  (refl, (98 ∷ [], refl, (inl (omega arith), tt)), (tt, tt), tt),
)

sample-cheshire : IsData runtime cheshire_defaults sample
unfolding named_text
sample-cheshire = sample-IsData cheshire_defaults refl

sample-IsData_strict : IsData runtime data_json_defaults sample
unfolding named_text
sample-IsData_strict = sample-IsData data_json_defaults refl

parse_value-write_json_example :
    (w : Bytes) × (write_json runtime cheshire_defaults sample ≡ answer w)
    × ((s : Source) (bs : Bytes)
        → IsBehind bs
        → s.rest ≡ w ++ bs
        → (c : Source) × (parse_value runtime plain_read s
            ≡ ok (image runtime cheshire_defaults sample) c)
          × (c.rest ≡ bs))
parse_value-write_json_example =
    parse_value-write_json runtime cheshire_defaults refl sample sample-cheshire

parse_string-generate_string_example :
    (s : Value) × (prim_generate_string runtime (sample ∷ []) ≡ answer s)
    × (prim_parse_string runtime (s ∷ []) ≡ answer (image runtime cheshire_defaults sample))
parse_string-generate_string_example = parse_string-generate_string runtime sample sample-cheshire

read_str-write_str_example :
    (s : Value) × (prim_write_str runtime (sample ∷ []) ≡ answer s)
    × (prim_read_str runtime (s ∷ []) ≡ answer (image runtime data_json_defaults sample))
read_str-write_str_example = read_str-write_str runtime sample sample-IsData_strict

-- The sample's text, a newline and a blank, and another value.
abbrev behind : Bytes
behind = b'\n' ∷ b' ' ∷ []

read_json-extra_example :
    (w : Bytes) × (write_json runtime cheshire_defaults sample ≡ answer w)
    × ((flavor : Flavor) (eof : Option Value)
        → (read_json runtime plain_read flavor ignore eof (make_source (w ++ (behind ++ codes "1")))
            ≡ answer (image runtime cheshire_defaults sample))
          × (d : Source) × (parse_value runtime plain_read
                (skip_whitespace (make_source (w ++ (behind ++ codes "1"))))
              ≡ ok (image runtime cheshire_defaults sample) d)
          × (d.rest ≡ behind ++ codes "1")
          × (c : Source) × (c.rest ≡ codes "1")
          × IsBehindBlanks behind d c
          × (read_json runtime plain_read flavor reject eof
                (make_source (w ++ (behind ++ codes "1")))
              ≡ raise flavor
                  (fail (codes "found extra data after the value: " ++ describe_current c) c)))
read_json-extra_example =
    read_json-extra runtime cheshire_defaults refl sample behind (codes "1") sample-cheshire
      (refl, (refl, tt)) (b'1', [], refl, refl) (refl, refl)

read_json-answers_example :
    read_json runtime plain_read data_json reject none (make_source (codes "[1,{\"a\":[}"))
    ≢ no_answer
read_json-answers_example =
    read_json-answers runtime plain_read data_json reject none (make_source (codes "[1,{\"a\":[}"))

-- A map with the key nil.
abbrev nil_key : Value
nil_key = vector (cons null (cons (object (entry null null end)) nil))

write_json-AnswersIf_example :
    AnswersIf
      (can_write runtime data_json_defaults nil_key)
      (write_json runtime data_json_defaults nil_key)
write_json-AnswersIf_example = write_json-AnswersIf runtime data_json_defaults nil_key

nil_key_run : can_write runtime data_json_defaults nil_key ≡ false
unfolding can_write
nil_key_run = refl

-- A runtime whose numbers are written in ASCII.
abbrev ascii_runtime : Runtime
ascii_runtime = record runtime { integer_string = λ t. codes "9223372036854775808" }

write_json-IsAscii_example : IsAscii (codes "{\"a\":[-42,\"\\u00e9\\\"\"],\"b\":[null]}")
unfolding write_json decimal_on
write_json-IsAscii_example =
    write_json-IsAscii ascii_runtime data_json_defaults refl
      (λ t. (
        refl,
        (
          refl,
          (
            refl,
            (
              refl,
              (
                refl,
                (
                  refl,
                  (
                    refl,
                    (
                      refl,
                      (
                        refl,
                        (
                          refl,
                          (
                            refl,
                            (refl, (refl, (refl, (refl, (refl, (refl, (refl, (refl, tt)))))))),
                          ),
                        ),
                      ),
                    ),
                  ),
                ),
              ),
            ),
          ),
        ),
      ))
      (λ d. (refl, (refl, (refl, tt)))) sample (codes "{\"a\":[-42,\"\\u00e9\\\"\"],\"b\":[null]}")
      refl
