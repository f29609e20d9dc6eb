-- ===== src/Json/Parser.antt =====
-- src/runtime/Json.cpp: `Parser::value`, `array`, `object` and `makeKey`.
use proto_clojure.Base.{
  ℕ, zero, suc, ◌*◌, true, false, ◌||◌, Option, none, some, [], ◌∷◌, ◌++◌, ◌==◌, if◌then◌else◌,
  length, Bytes, codes,
}
use proto_clojure.Json.Source.{
  Source, peek, advance, end_of_input, Parsed, ok, out_of_fuel, fail, ◌>>=◌, describe_current,
  skip_whitespace, is_digit, is_letter,
}
use proto_clojure.Json.Numbers.{number, word, unrecognized}
use proto_clojure.Json.Texts.{string}
use proto_clojure.Json.{
  Value, null, boolean, text, named, vector, object, Items, nil, cons, Entries, end, entry, Runtime,
}

-- What the keys of an object become.
pub data Keys : Type 0 where
  strings keywords : Keys
  fn : (Value → Value) → Keys

-- `value_fn` answers `none` where the code's function answers itself.
pub record ReadOptions : Type 0 where
  pub keys : Keys
  pub value_fn : Option (Value → Value → Option Value)

-- A C string: the bytes in front of the first NUL.
abbrev pub c_string : Bytes → Bytes
c_string [] = []
c_string (b ∷ bs) = if b == 0 then [] else b ∷ c_string bs

unfoldable pub make_key : Keys → Bytes → Value
make_key strings s = text s
make_key keywords s = named (c_string (b':' ∷ s))
make_key (fn f) s = f (text s)

-- The entry in front of those that follow it, or no entry.
unfoldable pub keep_entry : Value → Option Value → Entries → Entries
keep_entry k none es = es
keep_entry k (some v) es = entry k v es

unfoldable pub apply_value_fn : Option (Value → Value → Option Value) → Value → Value → Option Value
apply_value_fn none k v = some v
apply_value_fn (some f) k v = f k v

abbrev pub text_value : Bytes → Source → Parsed Value
text_value s c = ok (text s) c

abbrev pub vector_value : Items → Source → Parsed Value
vector_value vs c = ok (vector vs) c

-- The end of an array's element: a comma and more of them, or the bracket.
unfoldable pub after_element : (Source → Parsed Items) → Value → Source → Parsed Items
after_element more v s0 =
    let s = skip_whitespace s0 in
    if peek s == b','
    then more (advance s) >>= (λ (vs : Items) c. ok (cons v vs) c)
    else if peek s == b']'
    then ok (cons v nil) (advance s)
    else if peek s == end_of_input
    then fail (codes "unexpected end of input inside an array, expected ',' or ']'") s
    else fail (codes "expected ',' or ']' in an array, found " ++ describe_current s) s

-- The opening bracket is consumed.
unfoldable pub array : (Source → Parsed Items) → Source → Parsed Items
array elements s0 =
    let s = skip_whitespace s0 in if peek s == b']' then ok nil (advance s) else elements s

unfoldable pub after_entry :
    (Source → Parsed Entries) → Value → Option Value → Source → Parsed Entries
unfolding keep_entry
after_entry more k v s0 =
    let s = skip_whitespace s0 in
    if peek s == b','
    then more (advance s) >>= (λ (es : Entries) c. ok (keep_entry k v es) c)
    else if peek s == b'}'
    then ok (keep_entry k v end) (advance s)
    else if peek s == end_of_input
    then fail (codes "unexpected end of input inside an object, expected ',' or '}'") s
    else fail (codes "expected ',' or '}' in an object, found " ++ describe_current s) s

-- `expect` of the colon, and the value behind it.
unfoldable pub entry_value : (Source → Parsed Value) → Source → Parsed Value
entry_value value s0 =
    let s = skip_whitespace s0 in
    if peek s == b':'
    then value (advance s)
    else fail (codes "expected ':' after an object key, found " ++ describe_current s) s

-- The key's text, from its opening quote.
unfoldable pub entry_key : Source → Parsed Bytes
entry_key s0 =
    let s = skip_whitespace s0 in
    if peek s == b'"'
    then string (advance s)
    else if peek s == end_of_input
    then fail (codes "unexpected end of input inside an object, expected a key") s
    else fail (codes "expected a string key in an object, found " ++ describe_current s) s

unfoldable pub object_from : (Source → Parsed Entries) → Source → Parsed Entries
object_from entries s0 =
    let s = skip_whitespace s0 in if peek s == b'}' then ok end (advance s) else entries s

module _ (runtime : Runtime) (opts : ReadOptions) where
  abbrev pub object_value : Entries → Source → Parsed Value
  object_value es c = ok (object (runtime.assoc_pairs es)) c

  -- The switch of `value` on the first byte; the loops of the containers are passed in.
  unfoldable pub value_from :
      (Source → Parsed Items) → (Source → Parsed Entries) → Source → Parsed Value
  unfolding array object_from
  value_from elements entries s =
      let c = peek s in
      if c == b'{'
      then object_from entries (advance s) >>= object_value
      else if c == b'['
      then array elements (advance s) >>= vector_value
      else if c == b'"'
      then string (advance s) >>= text_value
      else if c == b't'
      then word (boolean true) (codes "true") s
      else if c == b'f'
      then word (boolean false) (codes "false") s
      else if c == b'n'
      then word null (codes "null") s
      else if c == b'-' || is_digit c
      then number s
      else if c == end_of_input
      then fail (codes "unexpected end of input, expected a value") s
      else if is_letter c
      then unrecognized (λ d. is_letter d || is_digit d) [] s
      else fail (codes "unexpected " ++ (describe_current s ++ codes ", expected a value")) s

  -- The value behind an entry's key, and the entries after it.
  unfoldable pub entry_rest :
      (Source → Parsed Value) → (Source → Parsed Entries) → Bytes → Source → Parsed Entries
  unfolding make_key apply_value_fn after_entry entry_value
  entry_rest value entries s c =
      let k = make_key opts.keys s in
      entry_value value c
      >>= (λ (v : Value) d. after_entry entries k (apply_value_fn opts.value_fn k v) d)

  unfoldable mutual
    unfolding value_from entry_rest entry_key after_element

    pub value : ℕ → Source → Parsed Value
    value zero s = out_of_fuel
    value (suc fuel) s = value_from (elements fuel) (entries fuel) (skip_whitespace s)

    pub elements : ℕ → Source → Parsed Items
    elements zero s = out_of_fuel
    elements (suc fuel) s = value fuel s >>= after_element (elements fuel)

    pub entries : ℕ → Source → Parsed Entries
    entries zero s = out_of_fuel
    entries (suc fuel) s = entry_key s >>= entry_rest (value fuel) (entries fuel)

  -- The next value. Each call consumes a byte or is the one call for an element (Json.Fuel).
  unfoldable pub parse_value : Source → Parsed Value
  parse_value s = value (suc (2 * length s.rest)) s
