-- ===== src/Json/Strings.antt =====
-- src/runtime/Json.cpp: `Writer::string`, `hexEscape` and `namedText`.
use proto_clojure.Base.{
  ℕ, zero, suc, ◌+◌, ◌-◌, ◌/◌, ◌%◌, Bool, true, false, not, ◌&&◌, ◌||◌, Option, none, some, [], ◌∷◌,
  ◌++◌, ltb, leb, within, ◌==◌, if◌then◌else◌, length, take, drop, Bytes,
}
use proto_clojure.Json.{Value, Flavor, cheshire, data_json}
use proto_clojure.Utf8.{continue_utf8}

pub record WriteOptions : Type 0 where
  pub flavor : Flavor
  pub pretty : Bool
  pub escape_non_ascii : Bool
  pub escape_slash : Bool
  pub escape_js_separators : Bool
  pub key_fn : Option Value

abbrev pub is_data_json : Flavor → Bool
is_data_json cheshire = false
is_data_json data_json = true

unfoldable pub hex_letter : Flavor → ℕ → ℕ
hex_letter flavor d =
    if ltb d 10 then b'0' + d else if is_data_json flavor then b'a' + (d - 10) else b'A' + (d - 10)

unfoldable pub hex_escape : Flavor → ℕ → Bytes
unfolding hex_letter
hex_escape flavor u =
    b'\\'
    ∷ b'u'
    ∷ hex_letter flavor (u / 4096 % 16)
    ∷ hex_letter flavor (u / 256 % 16)
    ∷ hex_letter flavor (u / 16 % 16)
    ∷ hex_letter flavor (u % 16)
    ∷ []

-- What a byte below 0x80 is written as.
unfoldable pub ascii_text : WriteOptions → ℕ → Bytes
unfolding hex_escape
ascii_text opts c =
    if c == b'"'
    then b'\\' ∷ b'"' ∷ []
    else if c == b'\\'
    then b'\\' ∷ b'\\' ∷ []
    else if c == 8
    then b'\\' ∷ b'b' ∷ []
    else if c == 12
    then b'\\' ∷ b'f' ∷ []
    else if c == 10
    then b'\\' ∷ b'n' ∷ []
    else if c == 13
    then b'\\' ∷ b'r' ∷ []
    else if c == 9
    then b'\\' ∷ b't' ∷ []
    else if c == b'/'
    then if opts.escape_slash then b'\\' ∷ b'/' ∷ [] else b'/' ∷ []
    else if ltb c 0x20
    then hex_escape opts.flavor c
    else c ∷ []

-- The length and the first bits that a lead byte gives.
unfoldable pub lead : ℕ → ℕ × ℕ
lead c =
    if within 0xC2 0xDF c
    then (2, c % 32)
    else if within 0xE0 0xEF c
    then (3, c % 16)
    else if within 0xF0 0xF4 c
    then (4, c % 8)
    else (1, 0xFFFD)

-- The sequence at the first of the bytes: its length and its code point.
unfoldable pub decode_sequence : ℕ → Bytes → Option (ℕ × ℕ)
unfolding lead continue_utf8
decode_sequence c bs =
    let (len, bits) = lead c in
    if ltb 1 len && leb len (suc (length bs))
    then elim (continue_utf8 (len - 1) bits bs) [ none ↦ none | some cp ↦ some (len, cp) ]
    else none

unfoldable pub escape_code_point : Flavor → ℕ → Bytes
unfolding hex_escape
escape_code_point flavor cp =
    if leb 0x10000 cp
    then hex_escape flavor (0xD800 + (cp - 0x10000) / 1024)
      ++ hex_escape flavor (0xDC00 + (cp - 0x10000) % 1024)
    else hex_escape flavor cp

abbrev pub is_separator : ℕ → Bool
is_separator cp = cp == 0x2028 || cp == 0x2029

abbrev pub is_escaped : WriteOptions → ℕ → Bool
is_escaped opts cp = opts.escape_non_ascii || (is_separator cp && opts.escape_js_separators)

-- What is written of a sequence, and its length; a malformed byte is U+FFFD.
unfoldable pub sequence_text : WriteOptions → Bytes → Option (ℕ × ℕ) → Bytes × ℕ
unfolding escape_code_point
sequence_text opts bs none = (
  if is_escaped opts 0xFFFD then escape_code_point opts.flavor 0xFFFD else 0xEF ∷ 0xBF ∷ 0xBD ∷ [],
  1,
)
sequence_text opts bs (some (len, cp)) =
    (if is_escaped opts cp then escape_code_point opts.flavor cp else take len bs, len)

-- What one round of the loop writes, and how many bytes it takes.
unfoldable pub char_text : WriteOptions → ℕ → Bytes → Bytes × ℕ
unfolding ascii_text sequence_text decode_sequence
char_text opts c bs =
    if ltb c 0x80
    then (ascii_text opts c, 1)
    else if not opts.escape_non_ascii && not opts.escape_js_separators
    then (c ∷ [], 1)
    else sequence_text opts (c ∷ bs) (decode_sequence c bs)

-- The bytes that belong to the sequence before them are passed over.
unfoldable pub chars_text : WriteOptions → ℕ → Bytes → Bytes
unfolding char_text
chars_text opts skip [] = []
chars_text opts (suc n) (c ∷ bs) = chars_text opts n bs
chars_text opts zero (c ∷ bs) =
    let (out, len) = char_text opts c bs in out ++ chars_text opts (len - 1) bs

unfoldable pub string_text : WriteOptions → Bytes → Bytes
unfolding chars_text
string_text opts s = b'"' ∷ (chars_text opts 0 s ++ b'"' ∷ [])

abbrev pub starts_with : ℕ → Bytes → Bool
starts_with c [] = false
starts_with c (b ∷ bs) = b == c

abbrev pub strip_colon : Bytes → Bytes
strip_colon s = if starts_with b':' s then drop 1 s else s

abbrev pub find_slash : Bytes → Option ℕ
find_slash [] = none
find_slash (b ∷ bs) =
    if b == b'/' then some 0 else elim (find_slash bs) [ none ↦ none | some i ↦ some (suc i) ]

unfoldable pub strip_namespace : Bytes → Option ℕ → Bytes
strip_namespace s none = s
strip_namespace s (some i) = if ltb 0 i && ltb (i + 1) (length s) then drop (i + 1) s else s

unfoldable pub named_text : WriteOptions → Bytes → Bytes
unfolding strip_namespace
named_text opts spelling =
    let s = strip_colon spelling in
    if is_data_json opts.flavor then strip_namespace s (find_slash s) else s
