-- ===== src/Json/Escapes.antt =====
-- src/runtime/Json.cpp: with all other characters escaped, strings are written in ASCII.
use proto_clojure.Base.{
  ℕ, zero, suc, ◌+◌, ◌-◌, ◌/◌, ◌%◌, ◌<◌, ◌≡◌, refl, Bool, true, false, not, ◌&&◌, ◌||◌, Option,
  none, some, [], ◌∷◌, ◌++◌, ltb, leb, ◌==◌, arith, if_cases, if_split, if◌then◌else◌, replicate,
  Bytes, All, All-append, IsDigit, decimal_on-digits, ℤ, pos, negsuc, decimal,
}
use proto_clojure.Json.Strings.{
  WriteOptions, hex_letter, hex_escape, ascii_text, escape_code_point, sequence_text,
  decode_sequence, char_text, chars_text, string_text,
}
use proto_clojure.Json.Writer.{int_text, ◌and_then◌}
use proto_clojure.Json.{Flavor, Answer, answer, thrown, no_answer, ◌then_with◌}

-- A byte below 0x80 that is a line end, or the blank or above it.
abbrev pub is_ascii_text : ℕ → Bool
is_ascii_text b = ltb b 0x80 && (leb 0x20 b || b == b'\n')

abbrev pub IsAscii : Bytes → Type 0
IsAscii s = All (λ b. is_ascii_text b ≡ true) s

pub IsAscii-append : (s t : Bytes) → IsAscii s → IsAscii t → IsAscii (s ++ t)
IsAscii-append s t h k = All-append (λ b. is_ascii_text b ≡ true) s t h k

hex_letter-is_ascii :
    (flavor : Flavor) (d : ℕ) → d < 16 → is_ascii_text (hex_letter flavor d) ≡ true
unfolding hex_letter
hex_letter-is_ascii flavor d h = ground arith

hex_escape-IsAscii : (flavor : Flavor) (u : ℕ) → IsAscii (hex_escape flavor u)
unfolding hex_escape
hex_escape-IsAscii flavor u =
    let digit = λ (d : ℕ) (h : d < 16). hex_letter-is_ascii flavor d h in
    (
      refl,
      (
        refl,
        (
          digit (u / 4096 % 16) (omega arith),
          (
            digit (u / 256 % 16) (omega arith),
            (digit (u / 16 % 16) (omega arith), (digit (u % 16) (omega arith), tt)),
          ),
        ),
      ),
    )

escape_code_point-IsAscii : (flavor : Flavor) (cp : ℕ) → IsAscii (escape_code_point flavor cp)
unfolding escape_code_point
escape_code_point-IsAscii flavor cp =
    let high = 0xD800 + (cp - 0x10000) / 1024 in
    let low = 0xDC00 + (cp - 0x10000) % 1024 in
    if_cases IsAscii (leb 0x10000 cp)
      (IsAscii-append (hex_escape flavor high) (hex_escape flavor low)
        (hex_escape-IsAscii flavor high) (hex_escape-IsAscii flavor low))
      (hex_escape-IsAscii flavor cp)

ascii_text-IsAscii : (opts : WriteOptions) (c : ℕ) → c < 0x80 → IsAscii (ascii_text opts c)
unfolding ascii_text
ascii_text-IsAscii opts c h =
    if_cases IsAscii (c == b'"') (refl, (refl, tt))
      (if_cases IsAscii (c == b'\\') (refl, (refl, tt))
        (if_cases IsAscii (c == 8) (refl, (refl, tt))
          (if_cases IsAscii (c == 12) (refl, (refl, tt))
            (if_cases IsAscii (c == 10) (refl, (refl, tt))
              (if_cases IsAscii (c == 13) (refl, (refl, tt))
                (if_cases IsAscii (c == 9) (refl, (refl, tt))
                  (if_cases IsAscii (c == b'/')
                    (if_cases IsAscii opts.escape_slash (refl, (refl, tt)) (refl, tt))
                    (if_split IsAscii (ltb c 0x20) (λ e. hex_escape-IsAscii opts.flavor c)
                      (λ e. (ground arith, tt))))))))))

escaped_if : (a b : Bool) (x y : Bytes) → a ≡ true → IsAscii x → IsAscii (if a || b then x else y)
escaped_if true b x y h k = k
escaped_if false b x y h k = cc

escaped_not :
    (a b : Bool) (x y : Bytes × ℕ)
    → a ≡ true
    → IsAscii y.0
    → IsAscii (if not a && b then x else y).0
escaped_not true b x y h k = k
escaped_not false b x y h k = cc

module _ (opts : WriteOptions) (escaped : opts.escape_non_ascii ≡ true) where
  sequence_text-IsAscii : (bs : Bytes) (o : Option (ℕ × ℕ)) → IsAscii (sequence_text opts bs o).0
  unfolding sequence_text
  sequence_text-IsAscii bs none =
      escaped_if opts.escape_non_ascii _ _ _ escaped (escape_code_point-IsAscii opts.flavor 0xFFFD)
  sequence_text-IsAscii bs (some (len, cp)) =
      escaped_if opts.escape_non_ascii _ _ _ escaped (escape_code_point-IsAscii opts.flavor cp)

  char_text-IsAscii : (c : ℕ) (bs : Bytes) → IsAscii (char_text opts c bs).0
  unfolding char_text
  char_text-IsAscii c bs =
      if_split (λ (p : Bytes × ℕ). IsAscii p.0) (ltb c 0x80)
        (λ e. ascii_text-IsAscii opts c (ground arith))
        (λ e.
          escaped_not opts.escape_non_ascii _ _ _ escaped
            (sequence_text-IsAscii (c ∷ bs) (decode_sequence c bs)))

  chars_text-IsAscii : (skip : ℕ) (bs : Bytes) → IsAscii (chars_text opts skip bs)
  unfolding chars_text
  chars_text-IsAscii skip [] = tt
  chars_text-IsAscii (suc n) (c ∷ bs) = chars_text-IsAscii n bs
  chars_text-IsAscii zero (c ∷ bs) =
      IsAscii-append (char_text opts c bs).0 (chars_text opts ((char_text opts c bs).1 - 1) bs)
        (char_text-IsAscii c bs) (chars_text-IsAscii ((char_text opts c bs).1 - 1) bs)

  pub string_text-IsAscii : (s : Bytes) → IsAscii (string_text opts s)
  unfolding string_text
  string_text-IsAscii s =
      (refl, IsAscii-append (chars_text opts 0 s) (b'"' ∷ []) (chars_text-IsAscii 0 s) (refl, tt))

digits-IsAscii : (s : Bytes) → All IsDigit s → IsAscii s
digits-IsAscii [] h = tt
digits-IsAscii (b ∷ s) ((l, u), h) = (ground arith, digits-IsAscii s h)

pub int_text-IsAscii : (n : ℤ) → IsAscii (int_text n)
unfolding int_text
int_text-IsAscii (pos n) = digits-IsAscii (decimal n) (decimal_on-digits (suc n) n)
int_text-IsAscii (negsuc n) =
    (refl, digits-IsAscii (decimal (suc n)) (decimal_on-digits (suc (suc n)) (suc n)))

pub blanks-IsAscii : (n : ℕ) → IsAscii (replicate n b' ')
blanks-IsAscii zero = tt
blanks-IsAscii (suc n) = (refl, blanks-IsAscii n)

-- What is answered, if anything is, is ASCII.
abbrev pub AnswersAscii : Answer Bytes → Type 0
AnswersAscii (answer s) = IsAscii s
AnswersAscii (thrown c m) = Unit
AnswersAscii no_answer = Unit

pub AnswersAscii-and_then :
    (a b : Answer Bytes) → AnswersAscii a → AnswersAscii b → AnswersAscii (a and_then b)
unfolding ◌and_then◌ ◌then_with◌
AnswersAscii-and_then (answer s) (answer t) h k = IsAscii-append s t h k
AnswersAscii-and_then (answer s) (thrown c m) h k = tt
AnswersAscii-and_then (answer s) no_answer h k = tt
AnswersAscii-and_then (thrown c m) b h k = tt
AnswersAscii-and_then no_answer b h k = tt
