-- ===== src/Json/Fuel/Numbers.antt =====
-- src/runtime/Json.cpp: what a number and a word consume.
use proto_clojure.Base.{
  ℕ, suc, ◌<◌, ◌≡◌, refl, Bool, true, false, not, ◌||◌, [], ◌∷◌, ◌++◌, arith, ◌==◌, length, Bytes,
  if_split, if_cases, codes,
}
use proto_clojure.Json.Fuel.Leaves.{
  Leaves, Leaves-bind, Leaves-fewer, fail-Leaves, length-advance_byte, length-advance_le,
  length-take_run_first,
}
use proto_clojure.Json.Numbers.{
  Scan, take_digits, need_digits, number_sign, number_whole, number_fraction, is_sign,
  exponent_sign, exponent_digits, number_exponent, number_end, number, continues_number,
  unrecognized, is_small_or_digit, word_on,
}
use proto_clojure.Json.Source.{Source, peek, advance, fail, is_digit, is_letter}

need_digits-Leaves :
    (what out : Bytes) (f : Bool) (s : Source) → Leaves (length s.rest) (need_digits what out f s)
unfolding take_digits
need_digits-Leaves what out f s =
    if_split (Leaves (length s.rest)) (is_digit (peek s))
      (λ e. length-take_run_first is_digit s.rest out s refl e (ground arith))
      (λ e. fail-Leaves Scan what s (length s.rest))

sign-Leaves : (s : Source) → Leaves (suc (length s.rest)) (number_sign s)
unfolding number_sign
sign-Leaves s =
    if_cases (Leaves (suc (length s.rest))) (peek s == b'-') (omega (arith, length-advance_le s))
      (omega arith)

whole-Leaves : (out : Bytes) (s : Source) → Leaves (length s.rest) (number_whole out s)
unfolding number_whole fail
whole-Leaves out s =
    if_split (Leaves (length s.rest)) (peek s == b'0')
      (λ e.
        if_cases (Leaves (length s.rest)) (is_digit (peek (advance s))) tt
          (omega (arith, length-advance_byte s b'0' e (omega arith))))
      (λ e. need_digits-Leaves (codes "invalid number, expected a digit after '-'") out false s)

fraction-Leaves : (n : Scan) (s : Source) → Leaves (suc (length s.rest)) (number_fraction n s)
unfolding number_fraction
fraction-Leaves n s =
    if_cases (Leaves (suc (length s.rest))) (peek s == b'.')
      (Leaves-fewer _ (length (advance s).rest) _ (omega (arith, length-advance_le s))
        (need_digits-Leaves _ (n.digits ++ b'.' ∷ []) true (advance s)))
      (omega arith)

exponent_sign-Leaves :
    (out : Bytes) (s : Source) → Leaves (suc (length s.rest)) (exponent_sign out s)
unfolding exponent_sign
exponent_sign-Leaves out s =
    if_cases (Leaves (suc (length s.rest))) (is_sign (peek s)) (omega (arith, length-advance_le s))
      (omega arith)

exponent_digits-Leaves : (out : Bytes) (s : Source) → Leaves (length s.rest) (exponent_digits out s)
unfolding exponent_digits
exponent_digits-Leaves out s = need_digits-Leaves _ out true s

exponent-Leaves : (n : Scan) (s : Source) → Leaves (suc (length s.rest)) (number_exponent n s)
unfolding number_exponent
exponent-Leaves n s =
    if_cases (Leaves (suc (length s.rest))) (peek s == b'e' || peek s == b'E')
      (Leaves-bind (exponent_sign (n.digits ++ b'e' ∷ []) (advance s)) exponent_digits
        (suc (length (advance s).rest)) (suc (length s.rest))
        (exponent_sign-Leaves (n.digits ++ b'e' ∷ []) (advance s))
        (λ out c l.
          Leaves-fewer _ (length c.rest) _ (omega (arith, length-advance_le s))
            (exponent_digits-Leaves out c)))
      (omega arith)

number_end-Leaves : (n : Scan) (s : Source) → Leaves (suc (length s.rest)) (number_end n s)
unfolding number_end fail
number_end-Leaves n s =
    if_cases (Leaves (suc (length s.rest))) (continues_number (peek s)) tt (omega arith)

-- A number consumes a byte.
pub number-Leaves : (s : Source) → Leaves (length s.rest) (number s)
unfolding number
number-Leaves s =
    let L = length s.rest in
    Leaves-bind _ number_end L L
      (Leaves-bind _ number_exponent L L
        (Leaves-bind _ number_fraction L L
          (Leaves-bind _ number_whole (suc L) L (sign-Leaves s)
            (λ out c l. Leaves-fewer _ (length c.rest) _ (omega arith) (whole-Leaves out c)))
          (λ n c l. Leaves-fewer _ (suc (length c.rest)) _ l (fraction-Leaves n c)))
        (λ n c l. Leaves-fewer _ (suc (length c.rest)) _ l (exponent-Leaves n c)))
      (λ n c l. Leaves-fewer _ (suc (length c.rest)) _ l (number_end-Leaves n c))

pub unrecognized-Leaves :
    (A : Type 0) (p : ℕ → Bool) (seen : Bytes) (s : Source) (n : ℕ)
    → Leaves n (unrecognized {A = A} p seen s)
unfolding unrecognized fail
unrecognized-Leaves A p seen s n = tt

pub word_on-Leaves :
    {A : Type 0} (a : A) (seen w : Bytes) (s : Source)
    → Leaves (suc (length s.rest)) (word_on a seen w s)
unfolding word_on
word_on-Leaves {A} a seen [] s =
    if_cases (Leaves (suc (length s.rest))) (is_letter (peek s) || is_digit (peek s))
      (unrecognized-Leaves A is_small_or_digit seen s _) (omega arith)
word_on-Leaves {A} a seen (c ∷ w) s =
    if_cases (Leaves (suc (length s.rest))) (not (peek s == c))
      (unrecognized-Leaves A is_letter seen s _)
      (Leaves-fewer _ (suc (length (advance s).rest)) _ (omega (arith, length-advance_le s))
        (word_on-Leaves a (seen ++ c ∷ []) w (advance s)))

-- A word with a first byte that is there consumes it.
pub word-Leaves :
    {A : Type 0} (a : A) (seen w : Bytes) (b : ℕ) (s : Source)
    → (peek s == b) ≡ true
    → b < 256
    → Leaves (length s.rest) (word_on a seen (b ∷ w) s)
unfolding word_on
word-Leaves {A} a seen w b s h l = rw h (
    Leaves-fewer _ (suc (length (advance s).rest)) _ (omega (arith, length-advance_byte s b h l))
      (word_on-Leaves a (seen ++ b ∷ []) w (advance s)))
