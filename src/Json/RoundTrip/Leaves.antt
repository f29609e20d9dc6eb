-- ===== src/Json/RoundTrip/Leaves.antt =====
-- src/runtime/Json.cpp: what it is that a written value is read back, and the values with no
-- parts.
use proto_clojure.Base.{
  ℕ, zero, suc, ◌*◌, ◌<◌, ◌≡◌, refl, ap, sym, ◌∙◌, Bool, true, false, [], ◌∷◌, ◌++◌, arith, length,
  drop, Bytes, codes, ℤ,
}
use proto_clojure.Json.Parser.{value, elements, entries, text_value}
use proto_clojure.Json.RoundTrip.Image.{plain_read, IsUtf8, image, image_items, image_entries}
use proto_clojure.Json.RoundTrip.Layout.{
  IsSolid, value_from-text, value_from-true, value_from-false, value_from-null, value_from-number,
}
use proto_clojure.Json.RoundTrip.Numbers.{
  IsBehind, IsLong, int_text-front, number-int_text, word_on-word,
}
use proto_clojure.Json.RoundTrip.Strings.{encode, string-string_text}
use proto_clojure.Json.RoundTrip.Texts.{rest-advance}
use proto_clojure.Json.Source.{Source, advance, ok, ◌>>=◌, skip_whitespace}
use proto_clojure.Json.Strings.{WriteOptions, string_text}
use proto_clojure.Json.Texts.{string}
use proto_clojure.Json.Writer.{
  write, write_items, write_entries, item_lead, sequence_end, entry_lead, map_end, int_text,
}
use proto_clojure.Json.{
  Value, null, boolean, integer, text, Items, nil, cons, Entries, end, entry, Runtime, answer,
}

pub string_text-IsSolid : (opts : WriteOptions) (x : Bytes) → IsSolid (string_text opts x)
unfolding string_text
string_text-IsSolid opts x = (b'"', _, refl, refl)

pub string_text-quote :
    (opts : WriteOptions) (x : Bytes) → string_text opts x ≡ b'"' ∷ drop 1 (string_text opts x)
unfolding string_text
string_text-quote opts x = refl

-- A text in front of which the source stands.
pub string-reads :
    (opts : WriteOptions) (x bs : Bytes) (s : Source)
    → IsUtf8 x
    → s.rest ≡ string_text opts x ++ bs
    → (c : Source) × (string (advance s) ≡ ok x c) × (c.rest ≡ bs)
unfolding string_text
string-reads opts x bs s (cps, e, all) h =
    let g : s.rest ≡ string_text opts (encode cps) ++ bs =
      h ∙ ap (λ y. string_text opts y ++ bs) e in
    let (c, f, r) =
      string-string_text opts cps (advance s) bs all (ap (λ t. b'"' ∷ t) (rest-advance s b'"' g)) in
    (c, f ∙ ap (λ y. ok y c) (sym e), r)

module _ (runtime : Runtime) (opts : WriteOptions) where
  -- The value is written as a text of its own, which the parser with enough fuel reads as the
  -- value's image in front of anything that continues neither a number nor a word.
  abbrev pub Reads : Bytes → Value → Type 0
  Reads w x =
      (fuel : ℕ) (s : Source) (bs : Bytes)
      → 2 * length w < fuel
      → IsBehind bs
      → (skip_whitespace s).rest ≡ w ++ bs
      → (c : Source) × (value runtime plain_read fuel s ≡ ok x c) × (c.rest ≡ bs)

  abbrev pub IsRead : ℕ → Value → Type 0
  IsRead depth v =
      (w : Bytes) × (write runtime opts depth v ≡ answer w)
      × IsSolid w
      × Reads w (image runtime opts v)

  -- The elements of an array, in front of its end.
  abbrev pub ReadsItems : Bytes → Items → Type 0
  ReadsItems w xs =
      (fuel : ℕ) (s : Source) (bs : Bytes)
      → suc (2 * length w) < fuel
      → (skip_whitespace s).rest ≡ w ++ (sequence_end runtime opts ++ bs)
      → (c : Source) × (elements runtime plain_read fuel s ≡ ok xs c) × (c.rest ≡ bs)

  abbrev pub AreRead : ℕ → Items → Type 0
  AreRead depth nil = Unit
  AreRead depth (cons v vs) =
      (w : Bytes) × ((first : Bool)
        → write_items runtime opts depth first (cons v vs)
          ≡ answer (item_lead runtime opts first ++ w))
      × IsSolid w
      × ReadsItems w (image_items runtime opts (cons v vs))

  -- The entries of an object, in front of its end at a depth.
  abbrev pub ReadsEntries : ℕ → Bytes → Entries → Type 0
  ReadsEntries depth w es =
      (fuel : ℕ) (s : Source) (bs : Bytes)
      → suc (2 * length w) < fuel
      → (skip_whitespace s).rest ≡ w ++ (map_end runtime opts depth ++ bs)
      → (c : Source) × (entries runtime plain_read fuel s ≡ ok es c) × (c.rest ≡ bs)

  abbrev pub EntriesRead : ℕ → Entries → Type 0
  EntriesRead depth end = Unit
  EntriesRead depth (entry k v es) =
      (w : Bytes) × ((first : Bool)
        → write_entries runtime opts (suc depth) first (entry k v es)
          ≡ answer (entry_lead runtime opts (suc depth) first ++ w))
      × IsSolid w
      × ReadsEntries depth w (image_entries runtime opts (entry k v es))

  pub text-Reads : (x : Bytes) → IsUtf8 x → Reads (string_text opts x) (text x)
  unfolding value
  text-Reads x u zero s bs l e h = absurd (omega arith)
  text-Reads x u (suc fuel) s bs l e h =
      let t = skip_whitespace s in
      let (c, f, r) = string-reads opts x bs t u h in
      (
        c,
        value_from-text runtime plain_read (elements runtime plain_read fuel)
              (entries runtime plain_read fuel) t (h ∙ ap (λ w. w ++ bs) (string_text-quote opts x))
            ∙ ap (λ m. m >>= text_value) f
            ∙ (unfold ◌>>=◌ in refl),
        r,
      )

  pub null-Reads : Reads (codes "null") null
  unfolding value
  null-Reads zero s bs l e h = absurd (omega arith)
  null-Reads (suc fuel) s bs l e h =
      let t = skip_whitespace s in
      let (c, f, r) = word_on-word null [] (codes "null") t bs e h in
      (
        c,
        value_from-null runtime plain_read (elements runtime plain_read fuel)
              (entries runtime plain_read fuel) t h
            ∙ f,
        r,
      )

  pub true-Reads : Reads (codes "true") (boolean true)
  unfolding value
  true-Reads zero s bs l e h = absurd (omega arith)
  true-Reads (suc fuel) s bs l e h =
      let t = skip_whitespace s in
      let (c, f, r) = word_on-word (boolean true) [] (codes "true") t bs e h in
      (
        c,
        value_from-true runtime plain_read (elements runtime plain_read fuel)
              (entries runtime plain_read fuel) t h
            ∙ f,
        r,
      )

  pub false-Reads : Reads (codes "false") (boolean false)
  unfolding value
  false-Reads zero s bs l e h = absurd (omega arith)
  false-Reads (suc fuel) s bs l e h =
      let t = skip_whitespace s in
      let (c, f, r) = word_on-word (boolean false) [] (codes "false") t bs e h in
      (
        c,
        value_from-false runtime plain_read (elements runtime plain_read fuel)
              (entries runtime plain_read fuel) t h
            ∙ f,
        r,
      )

  pub integer-Reads : (n : ℤ) → IsLong n → Reads (int_text n) (integer n)
  unfolding value
  integer-Reads n l zero s bs m e h = absurd (omega arith)
  integer-Reads n l (suc fuel) s bs m e h =
      let t = skip_whitespace s in
      let (b, ds, k, start) = int_text-front n in
      let (c, f, r) = number-int_text n t bs l e h in
      (
        c,
        value_from-number runtime plain_read (elements runtime plain_read fuel)
              (entries runtime plain_read fuel) t (h ∙ ap (λ x. x ++ bs) k) start
            ∙ f,
        r,
      )

  pub integer-IsSolid : (n : ℤ) → IsSolid (int_text n)
  integer-IsSolid n = let (b, ds, k, start) = int_text-front n in (b, ds, k, ground (arith, start))
