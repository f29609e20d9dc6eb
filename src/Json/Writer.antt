-- ===== src/Json/Writer.antt =====
-- src/runtime/Json.cpp: `Writer` on values, and `generate-string` and `write-str`.
use proto_clojure.Base.{
  ℕ, suc, ◌*◌, Bool, true, false, ◌&&◌, ◌||◌, Option, none, some, List, [], ◌∷◌, ◌++◌,
  if◌then◌else◌, length, take, drop, replicate, Bytes, codes, ℤ, pos, negsuc, decimal, equal,
}
use proto_clojure.Json.Strings.{WriteOptions, is_data_json, string_text, named_text, starts_with}
use proto_clojure.Json.Read.{truthy, or_nil, map_option, arity, pair_options}
use proto_clojure.Json.{
  Value, null, boolean, integer, large, double, text, named, vector, seq, set, object, other, Items,
  nil, cons, Entries, end, entry, cheshire, data_json, DoubleKind, finite, not_a_number,
  positive_infinite, negative_infinite, Runtime, Answer, answer, thrown, ◌then_with◌,
}

unfoldable pub newline_indent : ℕ → Bytes
newline_indent depth = b'\n' ∷ replicate (2 * depth) b' '

unfoldable pub int_text : ℤ → Bytes
int_text (pos n) = decimal n
int_text (negsuc n) = b'-' ∷ decimal (suc n)

-- A text without its article.
unfoldable pub strip_article : Bytes → Bytes
strip_article t =
    if equal (take 2 t) (codes "a ")
    then drop 2 t
    else if equal (take 3 t) (codes "an ")
    then drop 3 t
    else t

abbrev pub is_keyword : Value → Bool
is_keyword (named s) = starts_with b':' s
is_keyword _ = false

abbrev pub is_null : Value → Bool
is_null null = true
is_null _ = false

infixr 6 ◌and_then◌
unfoldable pub ◌and_then◌ : Answer Bytes → Answer Bytes → Answer Bytes
unfolding ◌then_with◌
a and_then b = a then_with λ s. b then_with λ t. answer (s ++ t)

module _ (runtime : Runtime) (opts : WriteOptions) where
  unfoldable pub cannot_write : Value → Answer Bytes
  cannot_write v =
      let type = strip_article (runtime.type_name v) in
      if is_data_json opts.flavor
      then thrown (codes "Exception") (codes "Don't know how to write JSON of " ++ type)
      else thrown (codes "IOException") (codes "Cannot JSON encode object of class: " ++ type)

  -- The text of a key that no function is applied to, other than nil without a function.
  unfoldable pub plain_key : Value → Bytes
  plain_key null = []
  plain_key (text s) = s
  plain_key (named s) = named_text opts s
  plain_key k = runtime.print_value k

  unfoldable pub fn_key : Value → Bytes
  fn_key (text s) = s
  fn_key r = runtime.print_value r

  unfoldable pub key_by : Option Value → Value → Answer Bytes
  unfolding plain_key fn_key
  key_by none k =
      if is_null k && is_data_json opts.flavor
      then thrown (codes "Exception") (codes "JSON object properties may not be nil")
      else answer (plain_key k)
  key_by (some f) k = answer (
      if is_data_json opts.flavor || is_keyword k
      then fn_key (runtime.invoke f (k ∷ []))
      else plain_key k)

  abbrev pub key_text : Value → Answer Bytes
  key_text k = key_by opts.key_fn k

  unfoldable pub double_text : DoubleKind → Bytes → Answer Bytes
  double_text finite shown = answer shown
  double_text not_a_number shown =
      if is_data_json opts.flavor
      then thrown (codes "Exception") (codes "JSON error: cannot write Double NaN")
      else answer (codes "\"NaN\"")
  double_text positive_infinite shown =
      if is_data_json opts.flavor
      then thrown (codes "Exception") (codes "JSON error: cannot write infinite Double")
      else answer (codes "\"Infinity\"")
  double_text negative_infinite shown =
      if is_data_json opts.flavor
      then thrown (codes "Exception") (codes "JSON error: cannot write infinite Double")
      else answer (codes "\"-Infinity\"")

  -- What stands in front of an element.
  unfoldable pub item_lead : Bool → Bytes
  item_lead first =
      if first
      then if opts.pretty then b' ' ∷ [] else []
      else if opts.pretty
      then b',' ∷ b' ' ∷ []
      else b',' ∷ []

  unfoldable pub sequence_end : Bytes
  sequence_end = if opts.pretty then b' ' ∷ b']' ∷ [] else b']' ∷ []

  -- What stands in front of a key.
  unfoldable pub entry_lead : ℕ → Bool → Bytes
  unfolding newline_indent
  entry_lead depth first =
      (if first then [] else b',' ∷ []) ++ (if opts.pretty then newline_indent depth else [])

  unfoldable pub colon : Bytes
  colon = if opts.pretty then codes " : " else codes ":"

  unfoldable pub map_end : ℕ → Bytes
  unfolding newline_indent
  map_end depth = (if opts.pretty then newline_indent depth else []) ++ b'}' ∷ []

  -- `depth` is the number of enclosing objects.
  unfoldable mutual
    unfolding ◌and_then◌ string_text named_text int_text cannot_write key_by double_text item_lead
        sequence_end entry_lead colon map_end

    pub write : ℕ → Value → Answer Bytes
    write depth null = answer (codes "null")
    write depth (boolean b) = answer (if b then codes "true" else codes "false")
    write depth (integer n) = answer (int_text n)
    write depth (large digits) = answer (runtime.integer_string digits)
    write depth (double d) = double_text (runtime.double_kind d) (runtime.format_double d)
    write depth (text s) = answer (string_text opts s)
    write depth (object end) = answer (if opts.pretty then codes "{ }" else codes "{}")
    write depth (object (entry k v es)) =
        answer (b'{' ∷ [])
        and_then write_entries (suc depth) true (entry k v es)
        and_then answer (map_end depth)
    write depth (vector vs) =
        answer (b'[' ∷ []) and_then write_items depth true vs and_then answer sequence_end
    write depth (seq vs) =
        answer (b'[' ∷ []) and_then write_items depth true vs and_then answer sequence_end
    write depth (set vs) =
        answer (b'[' ∷ []) and_then write_items depth true vs and_then answer sequence_end
    write depth (named s) = answer (string_text opts (named_text opts s))
    write depth (other t) = cannot_write (other t)

    pub write_items : ℕ → Bool → Items → Answer Bytes
    write_items depth first nil = answer []
    write_items depth first (cons v vs) =
        answer (item_lead first) and_then write depth v and_then write_items depth false vs

    pub write_entries : ℕ → Bool → Entries → Answer Bytes
    write_entries depth first end = answer []
    write_entries depth first (entry k v es) =
        answer (entry_lead depth first)
        and_then (key_text k then_with λ s. answer (string_text opts s ++ colon))
        and_then write depth v
        and_then write_entries depth false es

unfoldable pub write_json : Runtime → WriteOptions → Value → Answer Bytes
unfolding write
write_json runtime opts v = write runtime opts 0 v

abbrev pub is_null_or_map : Value → Bool
is_null_or_map null = true
is_null_or_map (object es) = true
is_null_or_map _ = false

module _ (runtime : Runtime) where
  abbrev pub key_fn_of : Value → Option Value
  key_fn_of f = if truthy f then some f else none

  -- The options of Cheshire: a map, or nil.
  unfoldable pub cheshire_write_options : Bytes → Value → Answer WriteOptions
  unfolding map_option
  cheshire_write_options who opts =
      let options : WriteOptions = record {
        flavor = cheshire;
        pretty = truthy (or_nil (map_option runtime opts (codes ":pretty")));
        escape_non_ascii = truthy (or_nil (map_option runtime opts (codes ":escape-non-ascii")));
        escape_slash = false;
        escape_js_separators = false;
        key_fn = key_fn_of (or_nil (map_option runtime opts (codes ":key-fn")));
      } in
      if is_null_or_map opts
      then answer options
      else thrown (codes "ClassCastException")
          (who ++ (codes ": options must be a map, got " ++ runtime.type_name opts))

  -- An option of clojure.data.json that holds where it is not given.
  abbrev pub by_default : Option Value → Bool
  by_default none = true
  by_default (some v) = truthy v

  unfoldable pub data_json_write_options : Value → WriteOptions
  unfolding map_option
  data_json_write_options opts = record {
    flavor = data_json;
    pretty = false;
    escape_non_ascii = by_default (map_option runtime opts (codes ":escape-unicode"));
    escape_slash = by_default (map_option runtime opts (codes ":escape-slash"));
    escape_js_separators = by_default (map_option runtime opts (codes ":escape-js-separators"));
    key_fn = key_fn_of (or_nil (map_option runtime opts (codes ":key-fn")));
  }

  unfoldable pub generate_text : Value → Value → Answer Value
  unfolding cheshire_write_options write_json
  generate_text v opts = cheshire_write_options (codes "generate-string") opts then_with λ o.
      write_json runtime o v then_with λ s. answer (text s)

  unfoldable pub prim_generate_string : List Value → Answer Value
  unfolding generate_text arity
  prim_generate_string (v ∷ []) = generate_text v null
  prim_generate_string (v ∷ opts ∷ []) = generate_text v opts
  prim_generate_string args = arity (length args) (codes "generate-string")

  unfoldable pub prim_write_str : List Value → Answer Value
  unfolding pair_options arity data_json_write_options write_json
  prim_write_str [] = arity 0 (codes "write-str")
  prim_write_str (v ∷ rest) = pair_options runtime (codes "write-str") rest then_with λ opts.
      write_json runtime (data_json_write_options opts) v then_with λ s. answer (text s)
