-- ===== src/Json/RoundTrip/Values.antt =====
-- src/runtime/Json.cpp: arrays and objects around what their loops read.
use proto_clojure.Base.{
  ℕ, zero, suc, ◌≡◌, refl, ap, ◌∙◌, true, [], ◌∷◌, ◌++◌, append_assoc, arith, length-append, Bytes,
  if◌then◌else◌, if_cases, All, codes,
}
use proto_clojure.Json.Parser.{value, elements, entries, vector_value, object_value}
use proto_clojure.Json.RoundTrip.Image.{plain_read}
use proto_clojure.Json.RoundTrip.Layout.{
  IsBlank, IsSolid, IsSolid-append, sequence_end-IsClosing, item_lead-blanks, entry_lead-blanks,
  value_from-object, value_from-array,
}
use proto_clojure.Json.RoundTrip.Leaves.{Reads, ReadsItems, ReadsEntries}
use proto_clojure.Json.RoundTrip.Steps.{array-nil, object-end, array-elements, object_from-entries}
use proto_clojure.Json.RoundTrip.Texts.{rest-advance}
use proto_clojure.Json.Source.{advance, ◌>>=◌, skip_whitespace}
use proto_clojure.Json.Strings.{WriteOptions}
use proto_clojure.Json.Writer.{item_lead, sequence_end, entry_lead, map_end}
use proto_clojure.Json.{vector, object, Items, nil, Entries, end, Runtime}

module _ (runtime : Runtime) (opts : WriteOptions) where
  -- A sequence of elements in brackets is read.
  pub sequence-Reads :
      (w : Bytes) (xs : Items)
      → IsSolid w
      → ReadsItems runtime opts w xs
      → Reads runtime opts
          (b'[' ∷ (item_lead runtime opts true ++ w ++ sequence_end runtime opts))
          (vector xs)
  unfolding value ◌>>=◌
  sequence-Reads w xs solid reads zero s bs l e h = absurd (omega arith)
  sequence-Reads w xs solid reads (suc fuel) s bs l e h =
      let lead = item_lead runtime opts true in
      let end = sequence_end runtime opts in
      let t = skip_whitespace s in
      let g : (advance t).rest ≡ lead ++ (w ++ (end ++ bs)) =
        rest-advance t b'[' h ∙ append_assoc (lead ++ w) end bs ∙ append_assoc lead w (end ++ bs) in
      let (c, f, r) =
        array-elements (elements runtime plain_read fuel) (advance t) lead (w ++ (end ++ bs))
          (item_lead-blanks runtime opts) (IsSolid-append w (end ++ bs) solid) g in
      let (d, k, q) =
        reads fuel c bs (omega (arith, length-append (lead ++ w) end, length-append lead w)) r in
      (
        d,
        value_from-array runtime plain_read (elements runtime plain_read fuel)
              (entries runtime plain_read fuel) t h
            ∙ ap (λ m. m >>= vector_value) (f ∙ k),
        q,
      )

  pub empty-Reads : Reads runtime opts (b'[' ∷ sequence_end runtime opts) (vector nil)
  unfolding value ◌>>=◌
  empty-Reads zero s bs l e h = absurd (omega arith)
  empty-Reads (suc fuel) s bs l e h =
      let t = skip_whitespace s in
      let (d, k, q) =
        array-nil (elements runtime plain_read fuel) (advance t) (sequence_end runtime opts) bs
          (sequence_end-IsClosing runtime opts) (rest-advance t b'[' h) in
      (
        d,
        value_from-array runtime plain_read (elements runtime plain_read fuel)
              (entries runtime plain_read fuel) t h
            ∙ ap (λ m. m >>= vector_value) k,
        q,
      )

  pub map-Reads :
      (depth : ℕ) (w : Bytes) (es : Entries)
      → IsSolid w
      → ReadsEntries runtime opts depth w es
      → Reads runtime opts
          (b'{' ∷ (entry_lead runtime opts (suc depth) true ++ w ++ map_end runtime opts depth))
          (object (runtime.assoc_pairs es))
  unfolding value ◌>>=◌
  map-Reads depth w es solid reads zero s bs l e h = absurd (omega arith)
  map-Reads depth w es solid reads (suc fuel) s bs l e h =
      let lead = entry_lead runtime opts (suc depth) true in
      let end = map_end runtime opts depth in
      let t = skip_whitespace s in
      let g : (advance t).rest ≡ lead ++ (w ++ (end ++ bs)) =
        rest-advance t b'{' h ∙ append_assoc (lead ++ w) end bs ∙ append_assoc lead w (end ++ bs) in
      let (c, f, r) =
        object_from-entries (entries runtime plain_read fuel) (advance t) lead (w ++ (end ++ bs))
          (entry_lead-blanks runtime opts (suc depth)) (IsSolid-append w (end ++ bs) solid) g in
      let (d, k, q) =
        reads fuel c bs (omega (arith, length-append (lead ++ w) end, length-append lead w)) r in
      (
        d,
        value_from-object runtime plain_read (elements runtime plain_read fuel)
              (entries runtime plain_read fuel) t h
            ∙ ap (λ m. m >>= object_value runtime plain_read) (f ∙ k),
        q,
      )

  -- The text of the empty map.
  abbrev pub no_entries : Bytes
  no_entries = if opts.pretty then codes "{ }" else codes "{}"

  pub no_entries-closing : (ws : Bytes) × All IsBlank ws × (no_entries ≡ b'{' ∷ (ws ++ b'}' ∷ []))
  no_entries-closing =
      if_cases (λ (x : Bytes). (ws : Bytes) × All IsBlank ws × (x ≡ b'{' ∷ (ws ++ b'}' ∷ [])))
        opts.pretty (b' ' ∷ [], (refl, tt), refl) ([], tt, refl)

  pub no_entries-Reads : Reads runtime opts no_entries (object (runtime.assoc_pairs end))
  unfolding value ◌>>=◌
  no_entries-Reads zero s bs l e h = absurd (omega arith)
  no_entries-Reads (suc fuel) s bs l e h =
      let (ws, all, k) = no_entries-closing in
      let t = skip_whitespace s in
      let g : t.rest ≡ b'{' ∷ ((ws ++ b'}' ∷ []) ++ bs) = h ∙ ap (λ y. y ++ bs) k in
      let (d, f, q) =
        object-end (entries runtime plain_read fuel) (advance t) (ws ++ b'}' ∷ []) bs
          (ws, all, refl) (rest-advance t b'{' g) in
      (
        d,
        value_from-object runtime plain_read (elements runtime plain_read fuel)
              (entries runtime plain_read fuel) t g
            ∙ ap (λ m. m >>= object_value runtime plain_read) f,
        q,
      )
