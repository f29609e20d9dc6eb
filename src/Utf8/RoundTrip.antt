-- ===== src/Utf8/RoundTrip.antt =====
-- src/reader/Lexer.cpp: decoding and encoding of UTF-8 are inverse to one another.
use proto_clojure.Base.{
  ℕ, ◌≤◌, ◌<◌, ◌≡◌, ◌⊎◌, some, [], ◌∷◌, ◌++◌, arith, length, take, Bytes, IsBytes,
}
use proto_clojure.Utf8.{decode_utf8, append_utf8}

-- A Unicode scalar value: a code point that is no surrogate.
abbrev pub IsScalar : ℕ → Type 0
IsScalar cp = (cp < 0xD800) ⊎ ((0xDFFF < cp) × (cp ≤ 0x10FFFF))

-- What is encoded of a scalar value decodes to it, with any bytes behind it.
pub decode-append :
    (cp : ℕ) (rest : Bytes)
    → IsScalar cp
    → decode_utf8 (append_utf8 [] cp ++ rest) ≡ some (length (append_utf8 [] cp), cp)
unfolding decode_utf8 append_utf8
decode-append cp rest h = ground arith

-- Of bytes, what decodes is the encoding of a scalar value that the encoder gives.
pub decode_sound :
    (bs : Bytes) {n cp : ℕ}
    → IsBytes bs
    → decode_utf8 bs ≡ some (n, cp)
    → IsScalar cp × (take n bs ≡ append_utf8 [] cp)
unfolding decode_utf8 append_utf8
decode_sound [] h e = ground arith
decode_sound (a ∷ []) h e = ground arith
decode_sound (a ∷ b ∷ []) h e = ground arith
decode_sound (a ∷ b ∷ c ∷ []) h e = ground arith
decode_sound (a ∷ b ∷ c ∷ d ∷ bs) h e = ground arith
