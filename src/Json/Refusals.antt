-- ===== src/Json/Refusals.antt =====
-- src/runtime/Json.cpp: which values the writer refuses.
use proto_clojure.Base.{
  ℕ, suc, ◌≡◌, refl, Bool, true, false, not, ◌&&◌, ◌||◌, Option, none, some, [], ◌∷◌, ◌++◌, Bytes,
  if◌then◌else◌,
}
use proto_clojure.Json.Strings.{WriteOptions, is_data_json, string_text}
use proto_clojure.Json.Writer.{
  write, write_items, write_entries, write_json, is_null, key_by, key_text, plain_key, double_text,
  cannot_write, item_lead, sequence_end, entry_lead, map_end, colon, ◌and_then◌,
}
use proto_clojure.Json.{
  Value, null, boolean, integer, large, double, text, named, vector, seq, set, object, other, Items,
  nil, cons, Entries, end, entry, DoubleKind, finite, not_a_number, positive_infinite,
  negative_infinite, Runtime, Answer, answer, thrown, ◌then_with◌,
}

abbrev pub is_finite : DoubleKind → Bool
is_finite finite = true
is_finite _ = false

abbrev pub is_none : {A : Type 0} → Option A → Bool
is_none none = true
is_none (some a) = false

module _ (runtime : Runtime) (opts : WriteOptions) where
  -- The values that have a JSON text: no value of another type, and for clojure.data.json no
  -- double but finite ones, and no key nil where no function is applied to it.
  unfoldable mutual
    pub can_write : Value → Bool
    can_write (double d) = is_finite (runtime.double_kind d) || not (is_data_json opts.flavor)
    can_write (vector vs) = can_write_items vs
    can_write (seq vs) = can_write_items vs
    can_write (set vs) = can_write_items vs
    can_write (object es) = can_write_entries es
    can_write (other t) = false
    can_write null = true
    can_write (boolean b) = true
    can_write (integer n) = true
    can_write (large t) = true
    can_write (text s) = true
    can_write (named s) = true

    pub can_write_items : Items → Bool
    can_write_items nil = true
    can_write_items (cons v vs) = can_write v && can_write_items vs

    pub can_write_entries : Entries → Bool
    can_write_entries end = true
    can_write_entries (entry k v es) =
        not (is_none opts.key_fn && is_null k && is_data_json opts.flavor)
        && (can_write v && can_write_entries es)

-- A text where the test holds, and an exception where it does not.
abbrev pub AnswersIf : Bool → Answer Bytes → Type 0
AnswersIf true a = (w : Bytes) × (a ≡ answer w)
AnswersIf false a = (c : Bytes) × (m : Bytes) × (a ≡ thrown c m)

AnswersIf-and_then :
    (b c : Bool) (x y : Answer Bytes)
    → AnswersIf b x
    → AnswersIf c y
    → AnswersIf (b && c) (x and_then y)
unfolding ◌and_then◌ ◌then_with◌
AnswersIf-and_then true true x y (w, e) (u, f) = (w ++ u, rw (e, f) refl)
AnswersIf-and_then true false x y (w, e) (c, m, f) = (c, m, rw (e, f) refl)
AnswersIf-and_then false b x y (c, m, e) h = (c, m, rw e refl)

AnswersIf-text : (x : Bytes) → AnswersIf true (answer x)
AnswersIf-text x = (x, refl)

AnswersIf-if : (b : Bool) (c m w : Bytes) → AnswersIf (not b) (if b then thrown c m else answer w)
AnswersIf-if true c m w = (c, m, refl)
AnswersIf-if false c m w = (w, refl)

AnswersIf-thrown :
    (b : Bool) (c m d n : Bytes) → AnswersIf false (if b then thrown c m else thrown d n)
AnswersIf-thrown true c m d n = (c, m, refl)
AnswersIf-thrown false c m d n = (d, n, refl)

module _ (runtime : Runtime) (opts : WriteOptions) where
  key-AnswersIf :
      (k : Value) (f : Option Value)
      → AnswersIf
          (not (is_none f && is_null k && is_data_json opts.flavor))
          (key_by runtime opts f k)
  unfolding key_by
  key-AnswersIf k none =
      AnswersIf-if (is_null k && is_data_json opts.flavor) _ _ (plain_key runtime opts k)
  key-AnswersIf k (some f) = (_, refl)

  -- What stands behind a key changes nothing.
  AnswersIf-then :
      (b : Bool) (a : Answer Bytes) (f : Bytes → Bytes)
      → AnswersIf b a
      → AnswersIf b (a then_with λ s. answer (f s))
  unfolding ◌then_with◌
  AnswersIf-then true a f (w, e) = (f w, rw e refl)
  AnswersIf-then false a f (c, m, e) = (c, m, rw e refl)

  double-AnswersIf :
      (kind : DoubleKind) (x : Bytes)
      → AnswersIf
          (is_finite kind || not (is_data_json opts.flavor))
          (double_text runtime opts kind x)
  unfolding double_text
  double-AnswersIf finite x = (x, refl)
  double-AnswersIf not_a_number x = AnswersIf-if (is_data_json opts.flavor) _ _ _
  double-AnswersIf positive_infinite x = AnswersIf-if (is_data_json opts.flavor) _ _ _
  double-AnswersIf negative_infinite x = AnswersIf-if (is_data_json opts.flavor) _ _ _

  refused : (t : Bytes) → AnswersIf false (cannot_write runtime opts (other t))
  unfolding cannot_write
  refused t = AnswersIf-thrown (is_data_json opts.flavor) _ _ _ _

  -- A container's brackets never fail.
  between :
      (b : Bool) (left right : Bytes) (a : Answer Bytes)
      → AnswersIf b a
      → AnswersIf b (answer left and_then a and_then answer right)
  unfolding ◌and_then◌ ◌then_with◌
  between true left right a (w, e) = (left ++ (w ++ right), rw e refl)
  between false left right a (c, m, e) = (c, m, rw e refl)

  mutual
    unfolding write can_write

    write-AnswersIf :
        (depth : ℕ) (v : Value) → AnswersIf (can_write runtime opts v) (write runtime opts depth v)
    write-AnswersIf depth null = (_, refl)
    write-AnswersIf depth (boolean b) = (_, refl)
    write-AnswersIf depth (integer n) = (_, refl)
    write-AnswersIf depth (large t) = (_, refl)
    write-AnswersIf depth (double d) =
        double-AnswersIf (runtime.double_kind d) (runtime.format_double d)
    write-AnswersIf depth (text s) = (_, refl)
    write-AnswersIf depth (named s) = (_, refl)
    write-AnswersIf depth (vector vs) =
        between (can_write_items runtime opts vs) (b'[' ∷ []) (sequence_end runtime opts) _
          (items-AnswersIf depth true vs)
    write-AnswersIf depth (seq vs) =
        between (can_write_items runtime opts vs) (b'[' ∷ []) (sequence_end runtime opts) _
          (items-AnswersIf depth true vs)
    write-AnswersIf depth (set vs) =
        between (can_write_items runtime opts vs) (b'[' ∷ []) (sequence_end runtime opts) _
          (items-AnswersIf depth true vs)
    write-AnswersIf depth (object end) = (_, refl)
    write-AnswersIf depth (object (entry k v es)) =
        between (can_write_entries runtime opts (entry k v es)) (b'{' ∷ [])
          (map_end runtime opts depth) _ (entries-AnswersIf (suc depth) true (entry k v es))
    write-AnswersIf depth (other t) = refused t

    items-AnswersIf :
        (depth : ℕ) (first : Bool) (vs : Items)
        → AnswersIf (can_write_items runtime opts vs) (write_items runtime opts depth first vs)
    items-AnswersIf depth first nil = (_, refl)
    items-AnswersIf depth first (cons v vs) =
        AnswersIf-and_then true _ _ _ (AnswersIf-text (item_lead runtime opts first)) (
          AnswersIf-and_then (can_write runtime opts v) (can_write_items runtime opts vs) _ _
            (write-AnswersIf depth v) (items-AnswersIf depth false vs))

    entries-AnswersIf :
        (depth : ℕ) (first : Bool) (es : Entries)
        → AnswersIf (can_write_entries runtime opts es) (write_entries runtime opts depth first es)
    entries-AnswersIf depth first end = (_, refl)
    entries-AnswersIf depth first (entry k v es) =
        AnswersIf-and_then true _ _ _ (AnswersIf-text (entry_lead runtime opts depth first)) (
          AnswersIf-and_then _ _ _ _
            (AnswersIf-then _ (key_text runtime opts k)
              (λ s. string_text opts s ++ colon runtime opts) (key-AnswersIf k opts.key_fn))
            (AnswersIf-and_then (can_write runtime opts v) (can_write_entries runtime opts es) _ _
              (write-AnswersIf depth v) (entries-AnswersIf depth false es)))

  -- The writer gives a text for every value but those that contain a value of a type that has no
  -- JSON text or, for clojure.data.json, a double that is not finite or, without a key function,
  -- a key nil; for these it throws.
  pub write_json-AnswersIf :
      (v : Value) → AnswersIf (can_write runtime opts v) (write_json runtime opts v)
  unfolding write_json
  write_json-AnswersIf v = write-AnswersIf 0 v
