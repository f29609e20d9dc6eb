-- ===== src/Json/Documents.antt =====
-- src/runtime/Json.cpp: the reading primitives on whole documents, and on what the writing
-- primitives write.
pub mod Primitives
use proto_clojure.Base.{
  ℕ, zero, suc, ◌+◌, ◌*◌, ◌≤◌, ◌<◌, ◌≡◌, ◌≢◌, refl, ap, sym, ◌∙◌, subst, Bool, true, false, not,
  ◌&&◌, ◌||◌, Option, none, some, List, [], ◌∷◌, ◌++◌, append_assoc, append-nil, arith, ◌==◌,
  length, Bytes, if◌then◌else◌, if_cases, if_split, All, codes, Bool-cases, inl, inr,
}
use proto_clojure.Json.Fuel.Leaves.{Leaves, Leaves-bind, fail-Leaves, length-skip_whitespace}
use proto_clojure.Json.Fuel.Values.{parse_value-Leaves}
use proto_clojure.Json.Parser.{ReadOptions, parse_value}
use proto_clojure.Json.Read.{
  Trailing, ignore, reject, rejects, at_end, check_trailing, raise, no_value, read_json,
  error_class, key_options, string_arg, parse_text, prim_parse_string, prim_read_str, set_key_fn,
  pair_options, data_json_read_options, read_text, eof_option, value_fn_of, map_option, or_nil,
}
use proto_clojure.Json.RoundTrip.Image.{plain_read, IsData, image}
use proto_clojure.Json.RoundTrip.Images.{written}
use proto_clojure.Json.Places.{IsBehindBlanks, skip-places}
use proto_clojure.Json.RoundTrip.Layout.{IsSolid, IsBlank, solid-more, IsSolid-append, skip-blanks}
use proto_clojure.Json.RoundTrip.Numbers.{IsBehind}
use proto_clojure.Json.Source.{
  Source, make_source, peek, first_or_end, end_of_input, Parsed, ok, err, out_of_fuel, fail, ◌>>=◌,
  describe_current, skip_whitespace, skip_on,
}
use proto_clojure.Json.Strings.{WriteOptions}
use proto_clojure.Json.Writer.{
  write_json, cheshire_write_options, data_json_write_options, generate_text, prim_generate_string,
  prim_write_str,
}
use proto_clojure.Json.{
  Value, null, text, Flavor, cheshire, data_json, Runtime, Answer, answer, thrown, no_answer,
  ◌then_with◌,
}

check_trailing-Leaves :
    (t : Trailing) (v : Value) (s : Source) (n : ℕ)
    → length s.rest < n
    → Leaves n (check_trailing t v s)
unfolding check_trailing fail
check_trailing-Leaves t v s n h =
    if_cases (λ (m : Parsed Value). Leaves n m) (rejects t && not (at_end (skip_whitespace s))) tt
      (if_cases (λ (c : Source). length c.rest < n) (rejects t)
        (omega (arith, length-skip_whitespace s)) h)

raise-answers :
    (flavor : Flavor) (n : ℕ) (m : Parsed Value) → Leaves n m → raise flavor m ≢ no_answer
unfolding raise
raise-answers flavor n (ok v s) h e = cc
raise-answers flavor n (err t) h e = cc
raise-answers flavor n out_of_fuel h e = elim h [ ]

no_value-answers :
    (flavor : Flavor) (eof : Option Value) (s : Source) → no_value flavor eof s ≢ no_answer
unfolding no_value
no_value-answers flavor none s =
    raise-answers flavor 0 (fail (codes "unexpected end of input, expected a value") s)
      (fail-Leaves Value _ s 0)
no_value-answers flavor (some v) s = λ e. cc

module _ (runtime : Runtime) where
  -- Reading a document ends, whatever the text, the options and the flavor are: with a value, or
  -- with an exception.
  pub read_json-answers :
      (opts : ReadOptions) (flavor : Flavor) (trailing : Trailing) (eof : Option Value) (s : Source)
      → read_json runtime opts flavor trailing eof s ≢ no_answer
  unfolding read_json
  read_json-answers opts flavor trailing eof s0 =
      let s = skip_whitespace s0 in
      if_cases (λ (a : Answer Value). a ≢ no_answer) (at_end s) (no_value-answers flavor eof s)
        (raise-answers flavor (length s.rest)
          (parse_value runtime opts s >>= check_trailing trailing)
          (Leaves-bind (parse_value runtime opts s) (check_trailing trailing) (length s.rest)
            (length s.rest) (parse_value-Leaves runtime opts s)
            (λ v c l. check_trailing-Leaves trailing v c (length s.rest) l)))

  -- A source in front of a value is not at its end.
  read_json-value :
      (opts : ReadOptions) (flavor : Flavor) (trailing : Trailing) (eof : Option Value) (w : Bytes)
      (v : Value) (c : Source)
      → IsSolid w
      → parse_value runtime opts (skip_whitespace (make_source w)) ≡ ok v c
      → read_json runtime opts flavor trailing eof (make_source w)
        ≡ raise flavor (check_trailing trailing v c)
  unfolding read_json ◌>>=◌
  read_json-value opts flavor trailing eof w v c solid e =
      let more : at_end (skip_whitespace (make_source w)) ≡ false =
        ap (λ x. first_or_end x == end_of_input) (skip-blanks [] w (make_source w) tt solid refl)
        ∙ solid-more w solid in
      rw (more, e) refl

  check_trailing-end :
      (flavor : Flavor) (trailing : Trailing) (v : Value) (c : Source)
      → c.rest ≡ []
      → raise flavor (check_trailing trailing v c) ≡ answer v
  unfolding raise check_trailing
  check_trailing-end flavor trailing v c h =
      let done : at_end (skip_whitespace c) ≡ true =
        (unfold skip_whitespace skip_on in
          ap (λ x. at_end (skip_on x c)) h ∙ ap (λ x. first_or_end x == end_of_input) h) in
      rw done (ground arith)

  module _ (opts : WriteOptions) (no_fn : opts.key_fn ≡ none) where
    -- Without a key function, a value of the JSON data is written as a document, which is read
    -- back, with string keys and whatever flavor, treatment of what follows and value for an
    -- empty document, as the value's image.
    pub read_json-write_json :
        (v : Value)
        → IsData runtime opts v
        → (w : Bytes) × (write_json runtime opts v ≡ answer w)
          × ((flavor : Flavor) (trailing : Trailing) (eof : Option Value)
              → read_json runtime plain_read flavor trailing eof (make_source w)
                ≡ answer (image runtime opts v))
    read_json-write_json v d =
        let (w, e, solid, reads) = written runtime opts no_fn v d in
        let r = skip-blanks [] w (make_source w) tt solid refl in
        let (c, f, q) =
          reads (skip_whitespace (make_source w)) [] (refl, refl) (r ∙ sym (append-nil w)) in
        (
          w,
          e,
          λ flavor trailing eof.
              read_json-value plain_read flavor trailing eof w (image runtime opts v) c solid f
              ∙ check_trailing-end flavor trailing (image runtime opts v) c q,
        )

    -- Without a key function, what is written of a value of the JSON data, with blanks and then
    -- something that is no blank behind it that continues neither a number nor a word, is read as
    -- the value's image where what follows is ignored. Where it is not, it is refused with the
    -- place that lies behind the place where the parser has left the value by a line for each
    -- newline of the blanks, and in the column that counts the blanks behind the last newline.
    pub read_json-extra :
        (v : Value) (ws x : Bytes)
        → IsData runtime opts v
        → All IsBlank ws
        → IsSolid x
        → IsBehind (ws ++ x)
        → (w : Bytes) × (write_json runtime opts v ≡ answer w)
          × ((flavor : Flavor) (eof : Option Value)
              → (read_json runtime plain_read flavor ignore eof (make_source (w ++ (ws ++ x)))
                  ≡ answer (image runtime opts v))
                × (d : Source) × (parse_value runtime plain_read
                      (skip_whitespace (make_source (w ++ (ws ++ x))))
                    ≡ ok (image runtime opts v) d)
                × (d.rest ≡ ws ++ x)
                × (c : Source) × (c.rest ≡ x)
                × IsBehindBlanks ws d c
                × (read_json runtime plain_read flavor reject eof (make_source (w ++ (ws ++ x)))
                    ≡ raise flavor (
                        fail (codes "found extra data after the value: " ++ describe_current c) c)))
    unfolding check_trailing raise
    read_json-extra v ws x d all solid_x behind =
        let (w, e, solid, reads) = written runtime opts no_fn v d in
        let document = w ++ (ws ++ x) in
        let solids = IsSolid-append w (ws ++ x) solid in
        let r = skip-blanks [] document (make_source document) tt solids refl in
        let (c, f, q) = reads (skip_whitespace (make_source document)) (ws ++ x) behind r in
        let left = skip-blanks ws x c all solid_x q in
        let more : at_end (skip_whitespace c) ≡ false =
          ap (λ y. first_or_end y == end_of_input) left ∙ solid-more x solid_x in
        (
          w,
          e,
          λ flavor eof. (
            read_json-value plain_read flavor ignore eof document (image runtime opts v) c solids f,
            c,
            f,
            q,
            skip_whitespace c,
            left,
            skip-places ws x c all solid_x q,
            read_json-value plain_read flavor reject eof document (image runtime opts v) c solids f
                ∙ rw more refl,
          ),
        )
