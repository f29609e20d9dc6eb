-- ===== src/Utf8/Tests.antt =====
-- src/reader/Utf8.h: the theorems on UTF-8 at two characters.
use proto_clojure.Base.{◌≡◌, refl, inl, some, [], ◌∷◌, ◌++◌, length, take, arith}
use proto_clojure.Utf8.{decode_utf8, append_utf8}
use proto_clojure.Utf8.RoundTrip.{IsScalar, decode-append, decode_sound}

-- U+20AC
decode-append_example :
    decode_utf8 (append_utf8 [] 0x20AC ++ 41 ∷ []) ≡ some (length (append_utf8 [] 0x20AC), 0x20AC)
decode-append_example = decode-append 0x20AC (41 ∷ []) (inl (omega arith))

-- U+00E9
decode_sound_example : IsScalar 0xE9 × (take 2 (0xC3 ∷ 0xA9 ∷ 65 ∷ []) ≡ append_utf8 [] 0xE9)
unfolding decode_utf8
decode_sound_example =
    decode_sound (0xC3 ∷ 0xA9 ∷ 65 ∷ []) (omega arith, (omega arith, (omega arith, tt))) refl
