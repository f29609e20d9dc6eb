-- ===== src/Json/RoundTrip/Images.antt =====
-- src/runtime/Json.cpp: the parser reads every written value back as its image.
use proto_clojure.Base.{
  ℕ, suc, ◌*◌, ◌≡◌, refl, ap, sym, ◌∙◌, true, false, ◌&&◌, none, [], ◌∷◌, ◌++◌, append_assoc,
  append-nil, arith, length, length-append, Bytes, codes,
}
use proto_clojure.Json.Parser.{parse_value}
use proto_clojure.Json.RoundTrip.Image.{
  plain_read, IsUtf8, image, image_items, image_entries, IsData, AreData, AreEntries,
}
use proto_clojure.Json.RoundTrip.Layout.{IsSolid, IsSolid-append, skip-blanks}
use proto_clojure.Json.RoundTrip.Leaves.{
  string_text-IsSolid, Reads, IsRead, AreRead, EntriesRead, text-Reads, null-Reads, true-Reads,
  false-Reads, integer-Reads, integer-IsSolid,
}
use proto_clojure.Json.RoundTrip.Loops.{
  elements-last, elements-more, entries-last, entries-more, entry_text,
}
use proto_clojure.Json.RoundTrip.Numbers.{IsBehind}
use proto_clojure.Json.RoundTrip.Values.{
  sequence-Reads, empty-Reads, map-Reads, no_entries, no_entries-closing, no_entries-Reads,
}
use proto_clojure.Json.Source.{Source, ok}
use proto_clojure.Json.Strings.{WriteOptions, is_data_json, string_text, named_text}
use proto_clojure.Json.Writer.{
  write_json, is_null, write, write_items, item_lead, sequence_end, entry_lead, colon, map_end,
  int_text, key_text, key_by, plain_key, ◌and_then◌,
}
use proto_clojure.Json.{
  Value, null, boolean, integer, large, double, text, named, vector, seq, set, object, other, Items,
  nil, cons, Entries, end, entry, Runtime, answer, ◌then_with◌,
}

module _ (runtime : Runtime) (opts : WriteOptions) where
  sequence-IsRead :
      (depth : ℕ) (vs : Items)
      → AreRead runtime opts depth vs
      → (w : Bytes) × ((answer (b'[' ∷ [])
            and_then write_items runtime opts depth true vs
            and_then answer (sequence_end runtime opts))
          ≡ answer w)
        × IsSolid w
        × Reads runtime opts w (vector (image_items runtime opts vs))
  unfolding ◌and_then◌ ◌then_with◌ write image
  sequence-IsRead depth nil read =
      (b'[' ∷ sequence_end runtime opts, refl, (b'[', _, refl, refl), empty-Reads runtime opts)
  sequence-IsRead depth (cons v vs) (w, e, solid, reads) = (
    b'[' ∷ (item_lead runtime opts true ++ w ++ sequence_end runtime opts),
    rw (e true) refl,
    (b'[', _, refl, refl),
    sequence-Reads runtime opts w (image_items runtime opts (cons v vs)) solid reads,
  )

  map-IsRead :
      (depth : ℕ) (es : Entries)
      → EntriesRead runtime opts depth es
      → IsRead runtime opts depth (object es)
  unfolding ◌and_then◌ ◌then_with◌ write image
  map-IsRead depth end read =
      let (ws, all, k) = no_entries-closing runtime opts in
      (no_entries runtime opts, refl, (b'{', _, k, refl), no_entries-Reads runtime opts)
  map-IsRead depth (entry k v es) (w, e, solid, reads) = (
    b'{' ∷ (entry_lead runtime opts (suc depth) true ++ w ++ map_end runtime opts depth),
    rw (e true) refl,
    (b'{', _, refl, refl),
    map-Reads runtime opts depth w (image_entries runtime opts (entry k v es)) solid reads,
  )

  items-IsRead :
      (depth : ℕ) (v : Value) (vs : Items)
      → IsRead runtime opts depth v
      → AreRead runtime opts depth vs
      → AreRead runtime opts depth (cons v vs)
  unfolding ◌and_then◌ ◌then_with◌ write image
  items-IsRead depth v nil (w, e, solid, reads) read = (
    w,
    (λ first. rw e (ap (λ t. answer (item_lead runtime opts first ++ t)) (append-nil w))),
    solid,
    elements-last runtime opts w (image runtime opts v) reads,
  )
  items-IsRead depth v (cons x vs) (w, e, solid, reads) (ws, es, solids, more) =
      let f = es false in
      (
        w ++ (item_lead runtime opts false ++ ws),
        (λ first. rw (e, f) refl),
        IsSolid-append w _ solid,
        elements-more runtime opts w ws (image runtime opts v)
            (image_items runtime opts (cons x vs)) reads solids more,
      )

  key_text-plain :
      (k : Value)
      → opts.key_fn ≡ none
      → (is_null k && is_data_json opts.flavor) ≡ false
      → key_text runtime opts k ≡ answer (plain_key runtime opts k)
  unfolding key_by
  key_text-plain k no_fn h = rw no_fn (rw h refl)

  entry-IsRead :
      (depth : ℕ) (k v : Value) (es : Entries)
      → key_text runtime opts k ≡ answer (plain_key runtime opts k)
      → IsUtf8 (plain_key runtime opts k)
      → IsRead runtime opts (suc depth) v
      → EntriesRead runtime opts depth es
      → EntriesRead runtime opts depth (entry k v es)
  unfolding ◌and_then◌ ◌then_with◌ write image
  entry-IsRead depth k v end shown utf8 (w, e, solid, reads) read =
      let key = plain_key runtime opts k in
      (
        entry_text runtime opts key w,
        (λ first.
            rw (shown, e)
              (ap (λ t. answer (entry_lead runtime opts (suc depth) first ++ t))
                (append_assoc (string_text opts key) (colon runtime opts) (w ++ [])
                  ∙ ap (λ t. string_text opts key ++ (colon runtime opts ++ t)) (append-nil w)))),
        IsSolid-append (string_text opts key) _ (string_text-IsSolid opts key),
        entries-last runtime opts depth key w (image runtime opts v) utf8 reads solid,
      )
  entry-IsRead depth k v (entry k' v' es) shown utf8 (w, e, solid, reads) (ws, f, solids, more) =
      let key = plain_key runtime opts k in
      let lead = entry_lead runtime opts (suc depth) false in
      let st = string_text opts key in
      let co = colon runtime opts in
      (
        entry_text runtime opts key w ++ (lead ++ ws),
        (λ first.
            rw (shown, e, f false)
              (ap (λ t. answer (entry_lead runtime opts (suc depth) first ++ t))
                (append_assoc st co (w ++ (lead ++ ws))
                  ∙ ap (λ t. st ++ t) (sym (append_assoc co w (lead ++ ws)))
                  ∙ sym (append_assoc st (co ++ w) (lead ++ ws))))),
        IsSolid-append (st ++ (co ++ w)) _ (IsSolid-append st _ (string_text-IsSolid opts key)),
        entries-more runtime opts depth key w ws (image runtime opts v)
            (image_entries runtime opts (entry k' v' es)) utf8 reads solid solids more,
      )

  module _ (no_fn : opts.key_fn ≡ none) where
    mutual
      unfolding IsData write image

      value-IsRead : (depth : ℕ) (v : Value) → IsData runtime opts v → IsRead runtime opts depth v
      value-IsRead depth null d =
          (codes "null", refl, (b'n', _, refl, refl), null-Reads runtime opts)
      value-IsRead depth (boolean true) d =
          (codes "true", refl, (b't', _, refl, refl), true-Reads runtime opts)
      value-IsRead depth (boolean false) d =
          (codes "false", refl, (b'f', _, refl, refl), false-Reads runtime opts)
      value-IsRead depth (integer n) d =
          (int_text n, refl, integer-IsSolid runtime opts n, integer-Reads runtime opts n d)
      value-IsRead depth (large t) d = elim d [ ]
      value-IsRead depth (double x) d = elim d [ ]
      value-IsRead depth (text s) d =
          (string_text opts s, refl, string_text-IsSolid opts s, text-Reads runtime opts s d)
      value-IsRead depth (named s) d = (
        string_text opts (named_text opts s),
        refl,
        string_text-IsSolid opts (named_text opts s),
        text-Reads runtime opts (named_text opts s) d,
      )
      value-IsRead depth (vector vs) d = sequence-IsRead depth vs (items-AreRead depth vs d)
      value-IsRead depth (seq vs) d = sequence-IsRead depth vs (items-AreRead depth vs d)
      value-IsRead depth (set vs) d = sequence-IsRead depth vs (items-AreRead depth vs d)
      value-IsRead depth (object es) d = map-IsRead depth es (entries-AreRead depth es d)
      value-IsRead depth (other t) d = elim d [ ]

      items-AreRead :
          (depth : ℕ) (vs : Items) → AreData runtime opts vs → AreRead runtime opts depth vs
      items-AreRead depth nil d = tt
      items-AreRead depth (cons v vs) d =
          items-IsRead depth v vs (value-IsRead depth v d.0) (items-AreRead depth vs d.1)

      entries-AreRead :
          (depth : ℕ) (es : Entries)
          → AreEntries runtime opts es
          → EntriesRead runtime opts depth es
      entries-AreRead depth end d = tt
      entries-AreRead depth (entry k v es) d =
          entry-IsRead depth k v es (key_text-plain k no_fn d.0) d.1
            (value-IsRead (suc depth) v d.2) (entries-AreRead depth es d.3)

    -- What is written of a value, and that the parser reads it.
    pub written :
        (v : Value)
        → IsData runtime opts v
        → (w : Bytes) × (write_json runtime opts v ≡ answer w)
          × IsSolid w
          × ((s : Source) (bs : Bytes)
              → IsBehind bs
              → s.rest ≡ w ++ bs
              → (c : Source) × (parse_value runtime plain_read s ≡ ok (image runtime opts v) c)
                × (c.rest ≡ bs))
    unfolding write_json parse_value
    written v d =
        let (w, e, solid, reads) = value-IsRead 0 v d in
        (
          w,
          e,
          solid,
          λ s bs b h.
              reads (suc (2 * length s.rest)) s bs (omega (arith, ap length h, length-append w bs))
                b (skip-blanks [] (w ++ bs) s tt (IsSolid-append w bs solid) h),
        )

    -- Without a key function, the writer writes every value of nil, Booleans, 64-bit integers,
    -- texts of valid UTF-8, keywords, symbols, sequences, sets and maps with keys that the flavor
    -- allows; and the parser, which keeps keys as strings, reads the text, in front of whatever
    -- continues neither a number nor a word, as the value's image, and stops behind it.
    pub parse_value-write_json :
        (v : Value)
        → IsData runtime opts v
        → (w : Bytes) × (write_json runtime opts v ≡ answer w)
          × ((s : Source) (bs : Bytes)
              → IsBehind bs
              → s.rest ≡ w ++ bs
              → (c : Source) × (parse_value runtime plain_read s ≡ ok (image runtime opts v) c)
                × (c.rest ≡ bs))
    parse_value-write_json v d = let (w, e, solid, reads) = written v d in (w, e, reads)
