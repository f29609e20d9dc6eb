-- ===== src/Json/Read.antt =====
-- src/runtime/Json.cpp: `readJson`, the options, and the primitives `parse-string` and `read-str`.
use proto_clojure.Base.{
  ℕ, Bool, true, false, not, ◌&&◌, ◌||◌, Option, none, some, List, [], ◌∷◌, ◌++◌, ◌==◌,
  if◌then◌else◌, length, Bytes, codes, decimal,
}
use proto_clojure.Json.Parser.{ReadOptions, Keys, strings, keywords, fn, parse_value}
use proto_clojure.Json.Source.{
  Source, make_source, peek, end_of_input, Parsed, ok, err, out_of_fuel, fail, ◌>>=◌,
  describe_current, skip_whitespace,
}
use proto_clojure.Json.{
  Value, null, boolean, text, object, Entries, end, entry, Flavor, cheshire, data_json, Runtime,
  Answer, answer, thrown, no_answer, ◌then_with◌,
}

unfoldable pub error_class : Flavor → Bytes
error_class cheshire = codes "IOException"
error_class data_json = codes "Exception"

abbrev pub truthy : Value → Bool
truthy null = false
truthy (boolean b) = b
truthy _ = true

pub data Trailing : Type 0 where
  ignore reject : Trailing

abbrev pub rejects : Trailing → Bool
rejects ignore = false
rejects reject = true

-- The source at which a value or the end follows.
abbrev pub at_end : Source → Bool
at_end s = peek s == end_of_input

-- What is left behind the value, where that must be nothing.
unfoldable pub check_trailing : Trailing → Value → Source → Parsed Value
check_trailing trailing v s0 =
    let s = skip_whitespace s0 in
    if rejects trailing && not (at_end s)
    then fail (codes "found extra data after the value: " ++ describe_current s) s
    else ok v (if rejects trailing then s else s0)

unfoldable pub raise : Flavor → Parsed Value → Answer Value
unfolding error_class
raise flavor (ok v s) = answer v
raise flavor (err message) = thrown (error_class flavor) message
raise flavor out_of_fuel = no_answer

-- A source with no value.
unfoldable pub no_value : Flavor → Option Value → Source → Answer Value
unfolding raise
no_value flavor none s = raise flavor (fail (codes "unexpected end of input, expected a value") s)
no_value flavor (some v) s = answer v

abbrev pub or_nil : Option Value → Value
or_nil none = null
or_nil (some v) = v

abbrev pub is_true : Value → Bool
is_true (boolean b) = b
is_true _ = false

abbrev pub key_options : Keys → ReadOptions
key_options keys = record { keys = keys; value_fn = none }

unfoldable pub arity : {A : Type 0} → ℕ → Bytes → Answer A
arity n name =
    thrown (codes "ArityException")
      (codes "Wrong number of args (" ++ (decimal n ++ (codes ") passed to: " ++ name)))

unfoldable pub option_pairs : List Value → Option Entries
option_pairs [] = some end
option_pairs (k ∷ []) = none
option_pairs (k ∷ v ∷ rest) = elim (option_pairs rest) [
  | none ↦ none
  | some es ↦ some (entry k v es)
]

module _ (runtime : Runtime) where
  -- `readJson`; `eof` is the value of a source with none, where that is no error.
  unfoldable pub read_json : ReadOptions → Flavor → Trailing → Option Value → Source → Answer Value
  unfolding check_trailing raise no_value
  read_json opts flavor trailing eof s0 =
      let s = skip_whitespace s0 in
      let parsed : Parsed Value = parse_value runtime opts s >>= check_trailing trailing in
      if at_end s then no_value flavor eof s else raise flavor parsed

  -- The value of an option and whether it is there.
  unfoldable pub map_option : Value → Bytes → Option Value
  map_option (object es) name = runtime.map_get es name
  map_option _ name = none

  unfoldable pub set_key_fn : Value → Keys
  set_key_fn f =
      if not (truthy f)
      then strings
      else if is_true f || runtime.is_keyword_fn f
      then keywords
      else fn (λ k. runtime.invoke f (k ∷ []))

  -- `:value-fn` that answers itself drops the entry.
  unfoldable pub value_fn_of : Value → Option (Value → Value → Option Value)
  value_fn_of f =
      if truthy f
      then some (λ k v.
        let r = runtime.invoke f (k ∷ v ∷ []) in if runtime.same r f then none else some r)
      else none

  unfoldable pub string_arg : Bytes → Value → Answer Bytes
  string_arg who (text s) = answer s
  string_arg who v =
      thrown (codes "ClassCastException")
        (who ++ (codes " expects a string, got " ++ runtime.type_name v))

  -- The keyword and value pairs behind the positional arguments.
  unfoldable pub pair_options : Bytes → List Value → Answer Value
  unfolding option_pairs
  pair_options who [] = answer null
  pair_options who (v ∷ vs) = elim (option_pairs (v ∷ vs)) [
    | none ↦
        thrown (codes "IllegalArgumentException")
          (who ++ codes ": options must be keyword / value pairs")
    | some es ↦ answer (object (runtime.assoc_pairs es))
  ]

  unfoldable pub parse_text : Keys → Value → Answer Value
  unfolding read_json string_arg
  parse_text keys s = string_arg (codes "parse-string") s then_with λ bytes.
      read_json (key_options keys) cheshire ignore (some null) (make_source bytes)

  unfoldable pub prim_parse_string : List Value → Answer Value
  unfolding parse_text arity set_key_fn
  prim_parse_string (null ∷ []) = answer null
  prim_parse_string (null ∷ f ∷ []) = answer null
  prim_parse_string (null ∷ f ∷ g ∷ []) = answer null
  prim_parse_string (s ∷ []) = parse_text strings s
  prim_parse_string (s ∷ f ∷ []) = parse_text (set_key_fn f) s
  prim_parse_string (s ∷ f ∷ g ∷ []) =
      if truthy g
      then thrown (codes "UnsupportedOperationException")
          (codes "parse-string: array-coerce-fn is not supported (D57)")
      else parse_text (set_key_fn f) s
  prim_parse_string args = arity (length args) (codes "parse-string")

  -- `eofOk` with `eofValue`, or none.
  unfoldable pub eof_option : Value → Option Value
  unfolding map_option
  eof_option opts = elim (map_option opts (codes ":eof-error?")) [
    | none ↦ none
    | some v ↦ if truthy v then none else some (or_nil (map_option opts (codes ":eof-value")))
  ]

  unfoldable pub data_json_read_options : Bytes → Value → Answer (ReadOptions × Option Value)
  unfolding eof_option set_key_fn value_fn_of map_option
  data_json_read_options who opts =
      if truthy (or_nil (map_option opts (codes ":bigdec")))
      then thrown (codes "UnsupportedOperationException")
          (who ++ codes ": :bigdec needs BigDecimal, which protoClojure does not have (D57)")
      else answer (
        record {
          keys = set_key_fn (or_nil (map_option opts (codes ":key-fn")));
          value_fn = value_fn_of (or_nil (map_option opts (codes ":value-fn")));
        },
        eof_option opts,
      )

  unfoldable pub read_text : Value → ReadOptions × Option Value → Answer Value
  unfolding read_json string_arg
  read_text s (opts, eof) = string_arg (codes "read-str") s then_with λ bytes.
      read_json opts data_json reject eof (make_source bytes)

  unfoldable pub prim_read_str : List Value → Answer Value
  unfolding read_text arity pair_options data_json_read_options
  prim_read_str [] = arity 0 (codes "read-str")
  prim_read_str (s ∷ rest) =
      pair_options (codes "read-str") rest
      then_with data_json_read_options (codes "read-str")
      then_with read_text s
