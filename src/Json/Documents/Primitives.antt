-- ===== src/Json/Documents/Primitives.antt =====
-- src/runtime/Json.cpp: `parse-string` of `generate-string`, and `read-str` of `write-str`.
use proto_clojure.Base.{◌≡◌, refl, ap, ◌∙◌, true, false, none, some, [], ◌∷◌}
use proto_clojure.Json.Documents.{read_json-write_json}
use proto_clojure.Json.Read.{
  ignore, reject, string_arg, parse_text, prim_parse_string, prim_read_str, set_key_fn,
  pair_options, data_json_read_options, read_text, eof_option, value_fn_of, map_option,
}
use proto_clojure.Json.RoundTrip.Image.{IsData, image}
use proto_clojure.Json.Strings.{WriteOptions}
use proto_clojure.Json.Writer.{
  write_json, cheshire_write_options, data_json_write_options, generate_text, prim_generate_string,
  prim_write_str,
}
use proto_clojure.Json.{Value, null, text, cheshire, data_json, Runtime, answer, ◌then_with◌}

abbrev pub cheshire_defaults : WriteOptions
cheshire_defaults = record {
  flavor = cheshire;
  pretty = false;
  escape_non_ascii = false;
  escape_slash = false;
  escape_js_separators = false;
  key_fn = none;
}

abbrev pub data_json_defaults : WriteOptions
data_json_defaults = record {
  flavor = data_json;
  pretty = false;
  escape_non_ascii = true;
  escape_slash = true;
  escape_js_separators = true;
  key_fn = none;
}

module _ (runtime : Runtime) where
  generate_string_lem :
      (v : Value)
      → prim_generate_string runtime (v ∷ [])
        ≡ (write_json runtime cheshire_defaults v then_with λ s. answer (text s))
  unfolding prim_generate_string generate_text cheshire_write_options map_option ◌then_with◌
  generate_string_lem v = refl

  write_str_lem :
      (v : Value)
      → prim_write_str runtime (v ∷ [])
        ≡ (write_json runtime data_json_defaults v then_with λ s. answer (text s))
  unfolding prim_write_str pair_options data_json_write_options map_option ◌then_with◌
  write_str_lem v = refl

  -- `parse-string` reads what `generate-string` gives of a value of nil, Booleans, 64-bit
  -- integers, texts of valid UTF-8, keywords, symbols, sequences, sets and maps with keys that it
  -- writes, both without options, as the value's image.
  pub parse_string-generate_string :
      (v : Value)
      → IsData runtime cheshire_defaults v
      → (s : Value) × (prim_generate_string runtime (v ∷ []) ≡ answer s)
        × (prim_parse_string runtime (s ∷ []) ≡ answer (image runtime cheshire_defaults v))
  unfolding prim_parse_string parse_text string_arg ◌then_with◌
  parse_string-generate_string v d =
      let (w, e, reads) = read_json-write_json runtime cheshire_defaults refl v d in
      (
        text w,
        generate_string_lem v ∙ ap (λ a. a then_with λ s. answer (text s)) e,
        reads cheshire ignore (some null),
      )

  -- `read-str` reads what `write-str` gives of a value of nil, Booleans, 64-bit integers, texts
  -- of valid UTF-8, keywords, symbols, sequences, sets and maps with keys that it writes, both
  -- without options, as the value's image.
  pub read_str-write_str :
      (v : Value)
      → IsData runtime data_json_defaults v
      → (s : Value) × (prim_write_str runtime (v ∷ []) ≡ answer s)
        × (prim_read_str runtime (s ∷ []) ≡ answer (image runtime data_json_defaults v))
  unfolding prim_read_str pair_options data_json_read_options read_text string_arg ◌then_with◌
      eof_option set_key_fn value_fn_of map_option
  read_str-write_str v d =
      let (w, e, reads) = read_json-write_json runtime data_json_defaults refl v d in
      (
        text w,
        write_str_lem v ∙ ap (λ a. a then_with λ s. answer (text s)) e,
        reads data_json reject none,
      )
