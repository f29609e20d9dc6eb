-- ===== src/Json/RoundTrip/Loops.antt =====
-- src/runtime/Json.cpp: the loops of `array` and `object` on written elements and entries.
use proto_clojure.Base.{
  ℕ, zero, suc, ◌*◌, ◌<◌, ◌≡◌, refl, ap, ◌∙◌, false, some, ◌++◌, append_assoc, arith, length,
  length-append, Bytes,
}
use proto_clojure.Json.Parser.{
  value, elements, entries, make_key, apply_value_fn, entry_rest, after_element, after_entry,
  entry_value, entry_key,
}
use proto_clojure.Json.RoundTrip.Image.{plain_read, IsUtf8}
use proto_clojure.Json.RoundTrip.Layout.{
  IsSolid, token-length, length-token, IsSolid-append, sequence_end-IsClosing, item_lead-IsToken,
  entry_lead-IsToken, colon-IsToken, map_end-IsClosing,
}
use proto_clojure.Json.RoundTrip.Leaves.{
  string_text-quote, string-reads, Reads, ReadsItems, ReadsEntries,
}
use proto_clojure.Json.RoundTrip.Numbers.{IsBehind}
use proto_clojure.Json.RoundTrip.Steps.{
  closing-IsBehind, token-IsBehind, after_element-end, after_element-more, after_entry-end,
  after_entry-more, entry_value-colon, entry_key-quote,
}
use proto_clojure.Json.Source.{Source, ok, ◌>>=◌, skip_whitespace}
use proto_clojure.Json.Strings.{WriteOptions, string_text}
use proto_clojure.Json.Writer.{item_lead, sequence_end, entry_lead, colon, map_end}
use proto_clojure.Json.{Value, text, Items, nil, cons, Entries, end, entry, Runtime}

module _ (runtime : Runtime) (opts : WriteOptions) where
  elements-suc :
      (fuel : ℕ) (s c : Source) (x : Value)
      → value runtime plain_read fuel s ≡ ok x c
      → elements runtime plain_read (suc fuel) s
        ≡ after_element (elements runtime plain_read fuel) x c
  unfolding elements ◌>>=◌
  elements-suc fuel s c x e = rw e refl

  pub elements-last :
      (w : Bytes) (x : Value) → Reads runtime opts w x → ReadsItems runtime opts w (cons x nil)
  elements-last w x reads zero s bs l h = absurd (omega arith)
  elements-last w x reads (suc fuel) s bs l h =
      let close = sequence_end-IsClosing runtime opts in
      let t = sequence_end runtime opts in
      let (c, f, r) =
        reads fuel s (t ++ bs) (omega arith) (closing-IsBehind b']' t bs close refl) h in
      let (d, g, q) = after_element-end (elements runtime plain_read fuel) x c t bs close r in
      (d, elements-suc fuel s c x f ∙ g, q)

  pub elements-more :
      (w ws : Bytes) (x : Value) (xs : Items)
      → Reads runtime opts w x
      → IsSolid ws
      → ReadsItems runtime opts ws xs
      → ReadsItems runtime opts (w ++ (item_lead runtime opts false ++ ws)) (cons x xs)
  elements-more w ws x xs reads solid more zero s bs l h = absurd (omega arith)
  elements-more w ws x xs reads solid more (suc fuel) s bs l h =
      let comma = item_lead-IsToken runtime opts in
      let t = item_lead runtime opts false in
      let u = ws ++ (sequence_end runtime opts ++ bs) in
      let end = sequence_end runtime opts ++ bs in
      let size = length-token b',' w t ws comma in
      let g : (skip_whitespace s).rest ≡ w ++ (t ++ u) =
        h ∙ append_assoc w (t ++ ws) end ∙ ap (λ y. w ++ y) (append_assoc t ws end) in
      let (c, f, r) =
        reads fuel s (t ++ u) (omega (arith, size)) (token-IsBehind b',' t u comma refl) g in
      let (d, k, q) =
        after_element-more (elements runtime plain_read fuel) x c t u bs xs comma
          (IsSolid-append ws end solid) r (λ e m. more fuel e bs (omega (arith, size)) m) in
      (d, elements-suc fuel s c x f ∙ k, q)

  -- A key, its colon and its value, in front of what the loop does with the rest.
  entries-suc :
      (fuel : ℕ) (s c d : Source) (key : Bytes) (x : Value)
      → entry_key s ≡ ok key c
      → entry_value (value runtime plain_read fuel) c ≡ ok x d
      → entries runtime plain_read (suc fuel) s
        ≡ after_entry (entries runtime plain_read fuel) (text key) (some x) d
  unfolding entries ◌>>=◌ entry_rest make_key apply_value_fn
  entries-suc fuel s c d key x e f = rw (e, ◌>>=◌, entry_rest, f) refl

  -- What an entry's text is, without what stands in front of its key.
  abbrev pub entry_text : Bytes → Bytes → Bytes
  entry_text key w = string_text opts key ++ (colon runtime opts ++ w)

  -- The key and the value of an entry in front of `u`.
  entry-Reads :
      (fuel : ℕ) (s : Source) (key w u : Bytes) (x : Value)
      → IsUtf8 key
      → Reads runtime opts w x
      → IsSolid w
      → 2 * length w < fuel
      → IsBehind u
      → (skip_whitespace s).rest ≡ entry_text key w ++ u
      → (c : Source) × (d : Source) × (entry_key s ≡ ok key c)
        × (entry_value (value runtime plain_read fuel) c ≡ ok x d)
        × (d.rest ≡ u)
  entry-Reads fuel s key w u x utf8 reads solid l behind h =
      let k = string_text opts key in
      let t = colon runtime opts in
      let g : (skip_whitespace s).rest ≡ k ++ (t ++ (w ++ u)) =
        h ∙ append_assoc k (t ++ w) u ∙ ap (λ y. k ++ y) (append_assoc t w u) in
      let (c, f, r) = string-reads opts key (t ++ (w ++ u)) (skip_whitespace s) utf8 g in
      let quote =
        entry_key-quote s _ (g ∙ ap (λ y. y ++ (t ++ (w ++ u))) (string_text-quote opts key)) in
      let (d, m, q) =
        entry_value-colon (value runtime plain_read fuel) c t (w ++ u) u x
          (colon-IsToken runtime opts) (IsSolid-append w u solid) r
          (λ e n. reads fuel e u l behind n) in
      (c, d, quote ∙ f, m, q)

  entry_text-length : (key w : Bytes) → length w < length (entry_text key w)
  entry_text-length key w =
      let k = string_text opts key in
      let t = colon runtime opts in
      omega (
        arith,
        length-append k (t ++ w),
        length-append t w,
        token-length b':' t (colon-IsToken runtime opts),
      )

  pub entries-last :
      (depth : ℕ) (key w : Bytes) (x : Value)
      → IsUtf8 key
      → Reads runtime opts w x
      → IsSolid w
      → ReadsEntries runtime opts depth (entry_text key w) (entry (text key) x end)
  entries-last depth key w x utf8 reads solid zero s bs l h = absurd (omega arith)
  entries-last depth key w x utf8 reads solid (suc fuel) s bs l h =
      let t = map_end runtime opts depth in
      let close = map_end-IsClosing runtime opts depth in
      let (c, d, e, f, r) =
        entry-Reads fuel s key w (t ++ bs) x utf8 reads solid
          (omega (arith, entry_text-length key w)) (closing-IsBehind b'}' t bs close refl) h in
      let (b, g, q) =
        after_entry-end (entries runtime plain_read fuel) (text key) x d t bs close r in
      (b, entries-suc fuel s c d key x e f ∙ g, q)

  pub entries-more :
      (depth : ℕ) (key w ws : Bytes) (x : Value) (es : Entries)
      → IsUtf8 key
      → Reads runtime opts w x
      → IsSolid w
      → IsSolid ws
      → ReadsEntries runtime opts depth ws es
      → ReadsEntries runtime opts depth
          (entry_text key w ++ (entry_lead runtime opts (suc depth) false ++ ws))
          (entry (text key) x es)
  entries-more depth key w ws x es utf8 reads solid solids more zero s bs l h = absurd (omega arith)
  entries-more depth key w ws x es utf8 reads solid solids more (suc fuel) s bs l h =
      let t = entry_lead runtime opts (suc depth) false in
      let comma = entry_lead-IsToken runtime opts (suc depth) in
      let end = map_end runtime opts depth ++ bs in
      let here = entry_text key w in
      let size = length-token b',' here t ws comma in
      let g : (skip_whitespace s).rest ≡ here ++ (t ++ (ws ++ end)) =
        h ∙ append_assoc here (t ++ ws) end ∙ ap (λ y. here ++ y) (append_assoc t ws end) in
      let (c, d, e, f, r) =
        entry-Reads fuel s key w (t ++ (ws ++ end)) x utf8 reads solid
          (omega (arith, entry_text-length key w, size))
          (token-IsBehind b',' t (ws ++ end) comma refl) g in
      let (b, k, q) =
        after_entry-more (entries runtime plain_read fuel) (text key) x d t (ws ++ end) bs es comma
          (IsSolid-append ws end solids) r (λ y m. more fuel y bs (omega (arith, size)) m) in
      (b, entries-suc fuel s c d key x e f ∙ k, q)
