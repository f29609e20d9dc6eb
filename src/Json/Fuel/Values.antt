-- ===== src/Json/Fuel/Values.antt =====
-- src/runtime/Json.cpp: a value ends with a result or an error, and consumes a byte.
use proto_clojure.Base.{
  ℕ, zero, suc, ◌*◌, ◌≤◌, ◌<◌, true, false, ◌||◌, Option, [], arith, ◌==◌, length, Bytes, if_split,
  if_cases,
}
use proto_clojure.Json.Fuel.Leaves.{
  Leaves, Leaves-bind, Leaves-fewer, length-advance_byte, length-advance_le, length-skip_whitespace,
}
use proto_clojure.Json.Fuel.Numbers.{number-Leaves, unrecognized-Leaves, word-Leaves}
use proto_clojure.Json.Fuel.Texts.{string-Leaves}
use proto_clojure.Json.Parser.{
  ReadOptions, make_key, apply_value_fn, after_element, array, after_entry, entry_value, entry_key,
  object_from, object_value, vector_value, text_value, value_from, entry_rest, value, elements,
  entries, parse_value,
}
use proto_clojure.Json.Source.{
  Source, peek, advance, end_of_input, Parsed, fail, skip_whitespace, is_digit, is_letter,
}
use proto_clojure.Json.{Value, boolean, null, Items, Entries, Runtime}

-- On sources with fewer than `n` bytes the function ends and consumes a byte.
abbrev Consumes : {A : Type 0} → ℕ → (Source → Parsed A) → Type 0
Consumes n f = (c : Source) → length c.rest < n → Leaves (length c.rest) (f c)

Consumes-on :
    {A : Type 0} (n m : ℕ) (f : Source → Parsed A) (c : Source)
    → Consumes n f
    → length c.rest < n
    → length c.rest ≤ m
    → Leaves m (f c)
Consumes-on n m f c h l k = Leaves-fewer _ (length c.rest) m k (h c l)

after_element-Leaves :
    (more : Source → Parsed Items) (v : Value) (s0 : Source)
    → Consumes (length s0.rest) more
    → Leaves (suc (length s0.rest)) (after_element more v s0)
unfolding after_element fail
after_element-Leaves more v s0 h =
    let s = skip_whitespace s0 in
    let L = length s0.rest in
    let l = length-skip_whitespace s0 in
    let P = λ (p : Parsed Items). Leaves (suc L) p in
    if_split P (peek s == b',')
      (λ e.
        let k = length-advance_byte s b',' e (omega arith) in
        Leaves-bind _ _ L (suc L) (Consumes-on L L more (advance s) h (omega arith) (omega arith))
          (λ vs c m. omega arith))
      (λ _.
        if_cases P (peek s == b']') (omega (arith, length-advance_le s))
          (if_cases P (peek s == end_of_input) tt tt))

array-Leaves :
    (elements : Source → Parsed Items) (s0 : Source)
    → Consumes (suc (length s0.rest)) elements
    → Leaves (suc (length s0.rest)) (array elements s0)
unfolding array
array-Leaves elements s0 h =
    let s = skip_whitespace s0 in
    let l = length-skip_whitespace s0 in
    let L = length s0.rest in
    if_cases (λ (p : Parsed Items). Leaves (suc L) p) (peek s == b']')
      (omega (arith, length-advance_le s))
      (Consumes-on (suc L) (suc L) elements s h (omega arith) (omega arith))

object_from-Leaves :
    (entries : Source → Parsed Entries) (s0 : Source)
    → Consumes (suc (length s0.rest)) entries
    → Leaves (suc (length s0.rest)) (object_from entries s0)
unfolding object_from
object_from-Leaves entries s0 h =
    let s = skip_whitespace s0 in
    let l = length-skip_whitespace s0 in
    let L = length s0.rest in
    if_cases (λ (p : Parsed Entries). Leaves (suc L) p) (peek s == b'}')
      (omega (arith, length-advance_le s))
      (Consumes-on (suc L) (suc L) entries s h (omega arith) (omega arith))

after_entry-Leaves :
    (more : Source → Parsed Entries) (k : Value) (v : Option Value) (s0 : Source)
    → Consumes (length s0.rest) more
    → Leaves (suc (length s0.rest)) (after_entry more k v s0)
unfolding after_entry fail
after_entry-Leaves more k v s0 h =
    let s = skip_whitespace s0 in
    let L = length s0.rest in
    let l = length-skip_whitespace s0 in
    let P = λ (p : Parsed Entries). Leaves (suc L) p in
    if_split P (peek s == b',')
      (λ e.
        let k = length-advance_byte s b',' e (omega arith) in
        Leaves-bind _ _ L (suc L) (Consumes-on L L more (advance s) h (omega arith) (omega arith))
          (λ vs c m. omega arith))
      (λ _.
        if_cases P (peek s == b'}') (omega (arith, length-advance_le s))
          (if_cases P (peek s == end_of_input) tt tt))

entry_value-Leaves :
    (value : Source → Parsed Value) (s0 : Source)
    → Consumes (length s0.rest) value
    → Leaves (length s0.rest) (entry_value value s0)
unfolding entry_value fail
entry_value-Leaves value s0 h =
    let s = skip_whitespace s0 in
    let l = length-skip_whitespace s0 in
    if_split (λ (p : Parsed Value). Leaves (length s0.rest) p) (peek s == b':')
      (λ e.
        let k = length-advance_byte s b':' e (omega arith) in
        Consumes-on (length s0.rest) (length s0.rest) value (advance s) h (omega arith)
          (omega arith))
      (λ _. tt)

entry_key-Leaves : (s0 : Source) → Leaves (length s0.rest) (entry_key s0)
unfolding entry_key fail
entry_key-Leaves s0 =
    let s = skip_whitespace s0 in
    let l = length-skip_whitespace s0 in
    let P = λ (p : Parsed Bytes). Leaves (length s0.rest) p in
    if_split P (peek s == b'"')
      (λ e.
        Leaves-fewer _ (length (advance s).rest) _ (omega (arith, length-advance_le s))
          (string-Leaves (advance s)))
      (λ _. if_cases P (peek s == end_of_input) tt tt)

module _ (runtime : Runtime) (opts : ReadOptions) where
  value_from-Leaves :
      (elements : Source → Parsed Items) (entries : Source → Parsed Entries) (s : Source)
      → Consumes (length s.rest) elements
      → Consumes (length s.rest) entries
      → Leaves (length s.rest) (value_from runtime opts elements entries s)
  unfolding value_from fail
  value_from-Leaves elements entries s h g =
      let L = length s.rest in
      let P = λ (p : Parsed Value). Leaves L p in
      if_split P (peek s == b'{')
        (λ e.
          let k = length-advance_byte s b'{' e (omega arith) in
          Leaves-bind _ (object_value runtime opts) L L
            (Leaves-fewer _ (suc (length (advance s).rest)) L (omega arith)
              (object_from-Leaves entries (advance s) (λ c m. g c (omega arith))))
            (λ es c m. m))
        (λ _.
          if_split P (peek s == b'[')
            (λ e.
              let k = length-advance_byte s b'[' e (omega arith) in
              Leaves-bind _ vector_value L L
                (Leaves-fewer _ (suc (length (advance s).rest)) L (omega arith)
                  (array-Leaves elements (advance s) (λ c m. h c (omega arith))))
                (λ es c m. m))
            (λ _.
              if_split P (peek s == b'"')
                (λ e.
                  Leaves-bind _ text_value L L
                    (Leaves-fewer _ (length (advance s).rest) L (length-advance_le s)
                      (string-Leaves (advance s)))
                    (λ es c m. m))
                (λ _.
                  if_split P (peek s == b't')
                    (λ e. word-Leaves (boolean true) [] _ b't' s e (omega arith))
                    (λ _.
                      if_split P (peek s == b'f')
                        (λ e. word-Leaves (boolean false) [] _ b'f' s e (omega arith))
                        (λ _.
                          if_split P (peek s == b'n')
                            (λ e. word-Leaves null [] _ b'n' s e (omega arith))
                            (λ _.
                              if_cases P (peek s == b'-' || is_digit (peek s)) (number-Leaves s) (
                                if_cases P (peek s == end_of_input) tt (
                                  if_cases P (is_letter (peek s))
                                    (unrecognized-Leaves Value _ [] s L) tt))))))))

  entry_rest-Leaves :
      (value : Source → Parsed Value) (entries : Source → Parsed Entries) (key : Bytes) (s : Source)
      → Consumes (length s.rest) value
      → Consumes (length s.rest) entries
      → Leaves (length s.rest) (entry_rest runtime opts value entries key s)
  unfolding entry_rest
  entry_rest-Leaves value entries key s h g =
      let k = make_key opts.keys key in
      Leaves-bind _ _ (length s.rest) _ (entry_value-Leaves value s h) (λ v c l.
        Leaves-fewer _ (suc (length c.rest)) _ l (
          after_entry-Leaves entries k (apply_value_fn opts.value_fn k v) c
            (λ d m. g d (omega arith))))

  mutual
    unfolding value

    value-Leaves :
        (fuel : ℕ) (s : Source)
        → 2 * length s.rest < fuel
        → Leaves (length s.rest) (value runtime opts fuel s)
    value-Leaves zero s h = elim h [ ]
    value-Leaves (suc fuel) s h =
        let c = skip_whitespace s in
        let l = length-skip_whitespace s in
        Leaves-fewer _ (length c.rest) _ l (
          value_from-Leaves (elements runtime opts fuel) (entries runtime opts fuel) c
            (λ d m. elements-Leaves fuel d (omega arith))
            (λ d m. entries-Leaves fuel d (omega arith)))

    elements-Leaves :
        (fuel : ℕ) (s : Source)
        → suc (2 * length s.rest) < fuel
        → Leaves (length s.rest) (elements runtime opts fuel s)
    elements-Leaves zero s h = elim h [ ]
    elements-Leaves (suc fuel) s h =
        Leaves-bind _ _ (length s.rest) _ (value-Leaves fuel s (omega arith)) (λ v c l.
          Leaves-fewer _ (suc (length c.rest)) _ l (
            after_element-Leaves (elements runtime opts fuel) v c
              (λ d m. elements-Leaves fuel d (omega arith))))

    entries-Leaves :
        (fuel : ℕ) (s : Source)
        → suc (2 * length s.rest) < fuel
        → Leaves (length s.rest) (entries runtime opts fuel s)
    entries-Leaves zero s h = elim h [ ]
    entries-Leaves (suc fuel) s h =
        Leaves-bind _ _ (length s.rest) _ (entry_key-Leaves s) (λ key c l.
          Leaves-fewer _ (length c.rest) _ (omega arith) (
            entry_rest-Leaves (value runtime opts fuel) (entries runtime opts fuel) key c
              (λ d m. value-Leaves fuel d (omega arith))
              (λ d m. entries-Leaves fuel d (omega arith))))

  -- The parser ends on every source with a value or an error, and a value leaves fewer bytes
  -- than there were.
  pub parse_value-Leaves : (s : Source) → Leaves (length s.rest) (parse_value runtime opts s)
  unfolding parse_value
  parse_value-Leaves s = value-Leaves (suc (2 * length s.rest)) s (omega arith)
