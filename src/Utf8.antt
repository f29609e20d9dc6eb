-- ===== src/Utf8.antt =====
-- src/reader/Lexer.cpp: `decodeUtf8` and `appendUtf8`. Both work on bytes below 256. A mask is
-- written as the division or remainder that it computes (`b & 0xC0` against a bit pattern as a
-- quotient by 64, `v << 6` as `v * 64`), and `|` between disjoint bits as a sum; the values stay
-- below 2 ^ 21, so that char32_t does not wrap.
pub mod RoundTrip
mod Tests
use proto_clojure.Base.{
  ℕ, zero, suc, ◌+◌, ◌-◌, ◌*◌, ◌/◌, ◌%◌, Bool, ◌&&◌, ◌||◌, Option, none, some, [], ◌∷◌, ◌++◌, ltb,
  within, ◌==◌, if◌then◌else◌, length, Bytes,
}

-- (b & 0xC0) == 0x80
abbrev pub is_continuation : ℕ → Bool
is_continuation b = b / 64 == 2

-- What the lead byte says: the length, the bits of the code point and the least code point that
-- needs this length.
pub record Lead : Type 0 where
  pub len : ℕ
  pub value : ℕ
  pub minimum : ℕ

unfoldable pub lead_byte : ℕ → Option Lead
lead_byte b =
    if ltb b 0x80
    then some (record { len = 1; value = b; minimum = 0 })
    else if b / 32 == 6
    then some (record { len = 2; value = b % 32; minimum = 0x80 })
    else if b / 16 == 14
    then some (record { len = 3; value = b % 16; minimum = 0x800 })
    else if b / 8 == 30
    then some (record { len = 4; value = b % 8; minimum = 0x10000 })
    else none

-- The loop over the continuation bytes.
unfoldable pub continue_utf8 : ℕ → ℕ → Bytes → Option ℕ
continue_utf8 zero value bs = some value
continue_utf8 (suc n) value [] = none
continue_utf8 (suc n) value (b ∷ bs) =
    let more = continue_utf8 n (value * 64 + b % 64) bs in if is_continuation b then more else none

abbrev pub is_surrogate : ℕ → Bool
is_surrogate cp = within 0xD800 0xDFFF cp

unfoldable pub check_value : Lead → Option ℕ → Option (ℕ × ℕ)
check_value lead none = none
check_value lead (some v) =
    if ltb v lead.minimum || ltb 0x10FFFF v || is_surrogate v then none else some (lead.len, v)

unfoldable pub decode_from : Option Lead → Bytes → Bytes → Option (ℕ × ℕ)
unfolding continue_utf8 check_value
decode_from none s bs = none
decode_from (some lead) s bs =
    if ltb (length s) lead.len
    then none
    else check_value lead (continue_utf8 (lead.len - 1) lead.value bs)

-- `decodeUtf8` at the bytes from the position on: the length and the code point, or `none` for 0.
unfoldable pub decode_utf8 : Bytes → Option (ℕ × ℕ)
unfolding lead_byte decode_from
decode_utf8 [] = none
decode_utf8 (b ∷ bs) = decode_from (lead_byte b) (b ∷ bs) bs

unfoldable pub append_utf8 : Bytes → ℕ → Bytes
append_utf8 out cp =
    if ltb cp 0x80
    then out ++ cp ∷ []
    else if ltb cp 0x800
    then out ++ (0xC0 + cp / 64) ∷ (0x80 + cp % 64) ∷ []
    else if ltb cp 0x10000
    then out ++ (0xE0 + cp / 4096) ∷ (0x80 + cp / 64 % 64) ∷ (0x80 + cp % 64) ∷ []
    else out
      ++ (0xF0 + cp / 0x40000)
        ∷ (0x80 + cp / 4096 % 64)
        ∷ (0x80 + cp / 64 % 64)
        ∷ (0x80 + cp % 64)
        ∷ []
