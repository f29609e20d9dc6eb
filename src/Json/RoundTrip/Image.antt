-- ===== src/Json/RoundTrip/Image.antt =====
-- src/runtime/Json.cpp: the values that JSON carries, and what they are when they are read back.
use proto_clojure.Base.{ℕ, ◌≡◌, false, ◌&&◌, List, Bytes, All, none}
use proto_clojure.Json.Parser.{ReadOptions, strings}
use proto_clojure.Json.RoundTrip.Numbers.{IsLong}
use proto_clojure.Json.RoundTrip.Strings.{encode}
use proto_clojure.Json.Strings.{WriteOptions, named_text, is_data_json}
use proto_clojure.Json.Writer.{plain_key, is_null}
use proto_clojure.Json.{
  Value, null, boolean, integer, large, double, text, named, vector, seq, set, object, other, Items,
  nil, cons, Entries, end, entry, Runtime,
}
use proto_clojure.Utf8.RoundTrip.{IsScalar}

-- The options of a reader that keeps the keys as strings.
abbrev pub plain_read : ReadOptions
plain_read = record { keys = strings; value_fn = none }

-- The bytes are valid UTF-8.
abbrev pub IsUtf8 : Bytes → Type 0
IsUtf8 s = (cps : List ℕ) × (s ≡ encode cps) × All IsScalar cps

module _ (runtime : Runtime) (opts : WriteOptions) where
  -- A written value read back: every sequence and set is a vector, a keyword or a symbol is its
  -- text, and a map is made of the keys' texts and the images of its values, in their order.
  unfoldable mutual
    pub image : Value → Value
    image (vector vs) = vector (image_items vs)
    image (seq vs) = vector (image_items vs)
    image (set vs) = vector (image_items vs)
    image (named s) = text (named_text opts s)
    image (object es) = object (runtime.assoc_pairs (image_entries es))
    image null = null
    image (boolean b) = boolean b
    image (integer n) = integer n
    image (large t) = large t
    image (double d) = double d
    image (text s) = text s
    image (other t) = other t

    pub image_items : Items → Items
    image_items nil = nil
    image_items (cons v vs) = cons (image v) (image_items vs)

    pub image_entries : Entries → Entries
    image_entries end = end
    image_entries (entry k v es) =
        entry (text (plain_key runtime opts k)) (image v) (image_entries es)

  -- A value of nil, Booleans, integers of 64 bits, texts of valid UTF-8, keywords, symbols,
  -- sequences, sets and maps, with keys that the flavor writes.
  unfoldable mutual
    pub IsData : Value → Type 0
    IsData (vector vs) = AreData vs
    IsData (seq vs) = AreData vs
    IsData (set vs) = AreData vs
    IsData (named s) = IsUtf8 (named_text opts s)
    IsData (object es) = AreEntries es
    IsData null = Unit
    IsData (boolean b) = Unit
    IsData (integer n) = IsLong n
    IsData (large t) = ⊥
    IsData (double d) = ⊥
    IsData (text s) = IsUtf8 s
    IsData (other t) = ⊥

    pub AreData : Items → Type 0
    AreData nil = Unit
    AreData (cons v vs) = IsData v × AreData vs

    pub AreEntries : Entries → Type 0
    AreEntries end = Unit
    AreEntries (entry k v es) =
        (is_null k && is_data_json opts.flavor ≡ false)
        × IsUtf8 (plain_key runtime opts k)
        × IsData v
        × AreEntries es
