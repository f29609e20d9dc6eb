-- ===== src/Json/Ascii.antt =====
-- src/runtime/Json.cpp: with all other characters escaped, the writer writes ASCII text.
use proto_clojure.Base.{
  ℕ, suc, ◌*◌, ◌≡◌, refl, subst, Bool, true, false, [], ◌∷◌, ◌++◌, if_cases, if◌then◌else◌, Bytes,
}
use proto_clojure.Json.Strings.{WriteOptions, is_data_json, string_text, named_text}
use proto_clojure.Json.Writer.{
  newline_indent, cannot_write, key_text, double_text, item_lead, sequence_end, entry_lead, colon,
  map_end, write, write_items, write_entries, write_json, ◌and_then◌,
}
use proto_clojure.Json.{
  Value, null, boolean, integer, large, double, text, named, vector, seq, set, object, other, Items,
  nil, cons, Entries, end, entry, DoubleKind, finite, not_a_number, positive_infinite,
  negative_infinite, Runtime, Answer, answer, thrown, no_answer, ◌then_with◌,
}
use proto_clojure.Reader.Token.{Double}
use proto_clojure.Json.Escapes.{
  IsAscii, IsAscii-append, string_text-IsAscii, int_text-IsAscii, blanks-IsAscii, AnswersAscii,
  AnswersAscii-and_then,
}

module _ (runtime : Runtime) (opts : WriteOptions) (escaped : opts.escape_non_ascii ≡ true)
    (integers : (t : Bytes) → IsAscii (runtime.integer_string t))
    (doubles : (d : Double) → IsAscii (runtime.format_double d)) where
  double_text-IsAscii :
      (kind : DoubleKind) (shown : Bytes)
      → IsAscii shown
      → AnswersAscii (double_text runtime opts kind shown)
  unfolding double_text
  double_text-IsAscii finite shown h = h
  double_text-IsAscii not_a_number shown h =
      if_cases AnswersAscii (is_data_json opts.flavor) tt (refl, (refl, (refl, (refl, (refl, tt)))))
  double_text-IsAscii positive_infinite shown h =
      if_cases AnswersAscii (is_data_json opts.flavor) tt
        (refl, (refl, (refl, (refl, (refl, (refl, (refl, (refl, (refl, (refl, tt))))))))))
  double_text-IsAscii negative_infinite shown h =
      if_cases AnswersAscii (is_data_json opts.flavor) tt
        (refl, (refl, (refl, (refl, (refl, (refl, (refl, (refl, (refl, (refl, (refl, tt)))))))))))

  cannot_write-IsAscii : (v : Value) → AnswersAscii (cannot_write runtime opts v)
  unfolding cannot_write
  cannot_write-IsAscii v = if_cases AnswersAscii (is_data_json opts.flavor) tt tt

  indent-IsAscii : (depth : ℕ) → IsAscii (if opts.pretty then newline_indent depth else [])
  unfolding newline_indent
  indent-IsAscii depth = if_cases IsAscii opts.pretty (refl, blanks-IsAscii (2 * depth)) tt

  map_end-IsAscii : (depth : ℕ) → IsAscii (map_end runtime opts depth)
  unfolding map_end
  map_end-IsAscii depth =
      IsAscii-append (if opts.pretty then newline_indent depth else []) (b'}' ∷ [])
        (indent-IsAscii depth) (refl, tt)

  entry_lead-IsAscii : (depth : ℕ) (first : Bool) → IsAscii (entry_lead runtime opts depth first)
  unfolding entry_lead
  entry_lead-IsAscii depth true = indent-IsAscii depth
  entry_lead-IsAscii depth false = (refl, indent-IsAscii depth)

  colon-IsAscii : IsAscii (colon runtime opts)
  unfolding colon
  colon-IsAscii = if_cases IsAscii opts.pretty (refl, (refl, (refl, tt))) (refl, tt)

  item_lead-IsAscii : (first : Bool) → IsAscii (item_lead runtime opts first)
  unfolding item_lead
  item_lead-IsAscii true = if_cases IsAscii opts.pretty (refl, tt) tt
  item_lead-IsAscii false = if_cases IsAscii opts.pretty (refl, (refl, tt)) (refl, tt)

  sequence_end-IsAscii : IsAscii (sequence_end runtime opts)
  unfolding sequence_end
  sequence_end-IsAscii = if_cases IsAscii opts.pretty (refl, (refl, tt)) (refl, tt)

  key-IsAscii :
      (a : Answer Bytes)
      → AnswersAscii (a then_with λ s. answer (string_text opts s ++ colon runtime opts))
  unfolding ◌then_with◌
  key-IsAscii (answer s) =
      IsAscii-append (string_text opts s) (colon runtime opts) (string_text-IsAscii opts escaped s)
        colon-IsAscii
  key-IsAscii (thrown c m) = tt
  key-IsAscii no_answer = tt

  -- A text between brackets.
  between-IsAscii :
      (left right : Bytes) (a : Answer Bytes)
      → IsAscii left
      → AnswersAscii a
      → IsAscii right
      → AnswersAscii (answer left and_then a and_then answer right)
  between-IsAscii left right a h k l =
      AnswersAscii-and_then (answer left) (a and_then answer right) h
        (AnswersAscii-and_then a (answer right) k l)

  mutual
    unfolding write

    value-IsAscii : (depth : ℕ) (v : Value) → AnswersAscii (write runtime opts depth v)
    value-IsAscii depth null = (refl, (refl, (refl, (refl, tt))))
    value-IsAscii depth (boolean true) = (refl, (refl, (refl, (refl, tt))))
    value-IsAscii depth (boolean false) = (refl, (refl, (refl, (refl, (refl, tt)))))
    value-IsAscii depth (integer n) = int_text-IsAscii n
    value-IsAscii depth (large t) = integers t
    value-IsAscii depth (double d) =
        double_text-IsAscii (runtime.double_kind d) (runtime.format_double d) (doubles d)
    value-IsAscii depth (text s) = string_text-IsAscii opts escaped s
    value-IsAscii depth (named s) = string_text-IsAscii opts escaped (named_text opts s)
    value-IsAscii depth (vector vs) =
        between-IsAscii (b'[' ∷ []) (sequence_end runtime opts) _ (refl, tt)
          (items-IsAscii depth true vs) sequence_end-IsAscii
    value-IsAscii depth (seq vs) =
        between-IsAscii (b'[' ∷ []) (sequence_end runtime opts) _ (refl, tt)
          (items-IsAscii depth true vs) sequence_end-IsAscii
    value-IsAscii depth (set vs) =
        between-IsAscii (b'[' ∷ []) (sequence_end runtime opts) _ (refl, tt)
          (items-IsAscii depth true vs) sequence_end-IsAscii
    value-IsAscii depth (object end) =
        if_cases IsAscii opts.pretty (refl, (refl, (refl, tt))) (refl, (refl, tt))
    value-IsAscii depth (object (entry k v es)) =
        between-IsAscii (b'{' ∷ []) (map_end runtime opts depth)
          (write_entries runtime opts (suc depth) true (entry k v es)) (refl, tt)
          (entries-IsAscii (suc depth) true (entry k v es)) (map_end-IsAscii depth)
    value-IsAscii depth (other t) = cannot_write-IsAscii (other t)

    items-IsAscii :
        (depth : ℕ) (first : Bool) (vs : Items)
        → AnswersAscii (write_items runtime opts depth first vs)
    items-IsAscii depth first nil = tt
    items-IsAscii depth first (cons v vs) =
        AnswersAscii-and_then (answer (item_lead runtime opts first)) _ (item_lead-IsAscii first) (
          AnswersAscii-and_then (write runtime opts depth v)
            (write_items runtime opts depth false vs) (value-IsAscii depth v)
            (items-IsAscii depth false vs))

    entries-IsAscii :
        (depth : ℕ) (first : Bool) (es : Entries)
        → AnswersAscii (write_entries runtime opts depth first es)
    entries-IsAscii depth first end = tt
    entries-IsAscii depth first (entry k v es) =
        AnswersAscii-and_then (answer (entry_lead runtime opts depth first)) _
          (entry_lead-IsAscii depth first)
          (AnswersAscii-and_then _ _ (key-IsAscii (key_text runtime opts k)) (
            AnswersAscii-and_then (write runtime opts depth v)
              (write_entries runtime opts depth false es) (value-IsAscii depth v)
              (entries-IsAscii depth false es)))

  -- With the option that escapes all other characters, and where large integers and doubles are
  -- printed so, every byte of what the writer writes, of any value and any strings in it, valid
  -- UTF-8 or not, is below 0x80, and is a line end or at least the blank (U+007F is written as it
  -- is).
  pub write_json-IsAscii :
      (v : Value) (w : Bytes) → write_json runtime opts v ≡ answer w → IsAscii w
  unfolding write_json
  write_json-IsAscii v w e = subst AnswersAscii e (value-IsAscii 0 v)
