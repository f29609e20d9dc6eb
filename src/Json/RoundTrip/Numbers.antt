-- ===== src/Json/RoundTrip/Numbers.antt =====
-- src/runtime/Json.cpp: `Parser::number` reads what is written of an integer of 64 bits, and
-- `Parser::word` the words.
use proto_clojure.Base.{
  ℕ, zero, suc, ◌+◌, ◌/◌, ◌%◌, ◌^◌, ◌<◌, ◌≡◌, inl, inr, refl, ap, sym, ◌∙◌, subst, true, false,
  ◌||◌, some, [], ◌∷◌, ◌++◌, append_assoc, append-nil, arith, ltb, ◌==◌, Bool-cases, Bytes, le→leb,
  All, IsDigit, decimal, decimal_on, decimal_on-digits, ℤ, pos, negsuc,
}
use proto_clojure.Json.Numbers.{
  Scan, scan, take_digits, number_sign, number_whole, number_fraction, number_exponent, number_end,
  number_value, integer_value, number, continues_number, word_on,
}
use proto_clojure.Json.RoundTrip.Texts.{rest-advance}
use proto_clojure.Json.Source.{
  Source, peek, first_or_end, advance, ok, ◌>>=◌, is_digit, is_letter, take_run, take_run_on,
}
use proto_clojure.Json.Writer.{int_text}
use proto_clojure.Json.{Value, integer}
use proto_clojure.Reader.Lexer.Integers.{decimal_value-decimal_on, decimal_on-front, strtoll-digits}
use proto_clojure.Reader.Number.{strtoll, decimal_value}

-- What may stand behind a value: no byte that would continue a number or a word.
abbrev pub IsBehind : Bytes → Type 0
IsBehind bs = (continues_number (first_or_end bs) ≡ false) × (is_digit (first_or_end bs) ≡ false)

-- An integer of 64 bits.
abbrev pub IsLong : ℤ → Type 0
IsLong (pos n) = n < 2 ^ 63
IsLong (negsuc n) = n < 2 ^ 63

take_run-digits :
    (ds bs out : Bytes) (s : Source)
    → All IsDigit ds
    → is_digit (first_or_end bs) ≡ false
    → s.rest ≡ ds ++ bs
    → (c : Source) × (take_run_on is_digit out (ds ++ bs) s ≡ (out ++ ds, c)) × (c.rest ≡ bs)
unfolding take_run_on
take_run-digits [] [] out s all e h = (s, ap (λ o. (o, s)) (sym (append-nil out)), h)
take_run-digits [] (b ∷ bs) out s all e h = (s, rw (e, append-nil out) refl, h)
take_run-digits (d ∷ ds) bs out s all e h =
    let digit : is_digit d ≡ true = ground (arith, all.0) in
    let (c, f, r) =
      take_run-digits ds bs (out ++ d ∷ []) (advance s) all.1 e (rest-advance s d h) in
    (c, rw digit (f ∙ ap (λ o. (o, c)) (append_assoc out (d ∷ []) ds)), r)

-- The digits of a positive number do not begin with a zero.
decimal_on-first :
    (fuel n : ℕ)
    → n < fuel
    → 0 < n
    → (d : ℕ) × (ds : Bytes) × (decimal_on fuel n ≡ d ∷ ds) × ((d == b'0') ≡ false)
unfolding decimal_on
decimal_on-first zero n h p = elim h [ ]
decimal_on-first (suc fuel) n h p = elim (Bool-cases (ltb n 10)) [
  | inl e ↦ (48 + n, [], rw e refl, ground arith)
  | inr e ↦
      let (d, ds, k, z) = decimal_on-first fuel (n / 10) (ground arith) (ground arith) in
      (d, ds ++ (48 + n % 10) ∷ [], rw (e, k) refl, z)
]

whole-digits :
    (d : ℕ) (ds out : Bytes) (s : Source) (bs : Bytes)
    → All IsDigit (d ∷ ds)
    → (d == b'0') ≡ false
    → IsBehind bs
    → s.rest ≡ d ∷ (ds ++ bs)
    → (c : Source) × (number_whole out s ≡ ok (scan (out ++ d ∷ ds) false) c) × (c.rest ≡ bs)
whole-digits d ds out s bs all z e h =
    let here : peek s ≡ d = ap first_or_end h in
    let (c, f, r) = take_run-digits (d ∷ ds) bs out s all e.1 h in
    let run : take_run is_digit out s ≡ (out ++ d ∷ ds, c) =
      ap (λ t. take_run_on is_digit out t s) h ∙ f in
    let digit : is_digit d ≡ true = ground (arith, all.0) in
    (c, unfold number_whole take_digits in rw here (rw (z, digit, run) refl), r)

whole-decimal :
    (n : ℕ) (out : Bytes) (s : Source) (bs : Bytes)
    → IsBehind bs
    → s.rest ≡ decimal n ++ bs
    → (c : Source) × (number_whole out s ≡ ok (scan (out ++ decimal n) false) c) × (c.rest ≡ bs)
whole-decimal zero out s bs e h =
    let g : s.rest ≡ b'0' ∷ bs = h ∙ (unfold decimal_on in refl) in
    let here : peek s ≡ b'0' = ap first_or_end g in
    let next : is_digit (peek (advance s)) ≡ false =
      ap (λ t. is_digit (first_or_end t)) (rest-advance s b'0' g) ∙ e.1 in
    (advance s, unfold number_whole decimal_on in rw here (rw next refl), rest-advance s b'0' g)
whole-decimal (suc n) out s bs e h =
    let (d, ds, k, z) = decimal_on-first (suc (suc n)) (suc n) (omega arith) (omega arith) in
    let all = subst (All IsDigit) k (decimal_on-digits (suc (suc n)) (suc n)) in
    let (c, f, r) = whole-digits d ds out s bs all z e (h ∙ ap (λ t. t ++ bs) k) in
    (c, f ∙ ap (λ t. ok (scan (out ++ t) false) c) (sym k), r)

value-decimal : (n : ℕ) → n < 2 ^ 63 → number_value (scan (decimal n) false) ≡ integer (pos n)
value-decimal n l =
    let (d, ds, k) = decimal_on-front (suc n) n (omega arith) in
    let all = subst (All IsDigit) k (decimal_on-digits (suc n) n) in
    let value : decimal_value 0 (d ∷ ds) ≡ n =
      ap (decimal_value 0) (sym k) ∙ decimal_value-decimal_on (suc n) n (omega arith) in
    let read : strtoll (decimal n) ≡ some (pos n) =
      ap strtoll k
      ∙ strtoll-digits d ds all.0 (omega (arith, value, l))
      ∙ ap (λ v. some (pos v)) value in
    unfold number_value integer_value in rw (read, integer_value) refl

value-negative :
    (n : ℕ) → n < 2 ^ 63 → number_value (scan (b'-' ∷ decimal (suc n)) false) ≡ integer (negsuc n)
unfolding number_value integer_value strtoll
value-negative n l =
    let value = decimal_value-decimal_on (suc (suc n)) (suc n) (omega arith) in
    rw (value, le→leb (suc n) (2 ^ 63) (omega arith)) refl

-- Behind the digits, nothing more of a number is read.
number-digits :
    (sign : Bytes) (s c d : Source) (n : Scan) (v : Value)
    → number_sign s ≡ ok sign c
    → number_whole sign c ≡ ok n d
    → continues_number (peek d) ≡ false
    → number_value n ≡ v
    → number s ≡ ok v d
unfolding number ◌>>=◌
number-digits sign s c d n v e f b g =
    let fraction : number_fraction n d ≡ ok n d = unfold number_fraction in ground (arith, b) in
    let exponent : number_exponent n d ≡ ok n d = unfold number_exponent in ground (arith, b) in
    let behind : number_end n d ≡ ok v d = unfold number_end in rw (b, g) refl in
    rw (e, ◌>>=◌) (rw (f, ◌>>=◌) (rw (fraction, ◌>>=◌) (rw (exponent, ◌>>=◌) behind)))

-- The first byte of an integer is a sign or a digit.
abbrev pub IsNumberStart : ℕ → Type 0
IsNumberStart b = (b == b'-' || is_digit b) ≡ true

pub int_text-front : (n : ℤ) → (b : ℕ) × (bs : Bytes) × (int_text n ≡ b ∷ bs) × IsNumberStart b
unfolding int_text
int_text-front (pos n) =
    let (d, ds, k) = decimal_on-front (suc n) n (omega arith) in
    let all = subst (All IsDigit) k (decimal_on-digits (suc n) n) in
    (d, ds, k, ground (arith, all.0))
int_text-front (negsuc n) = (b'-', decimal (suc n), refl, refl)

pub number-int_text :
    (n : ℤ) (s : Source) (bs : Bytes)
    → IsLong n
    → IsBehind bs
    → s.rest ≡ int_text n ++ bs
    → (c : Source) × (number s ≡ ok (integer n) c) × (c.rest ≡ bs)
unfolding int_text
number-int_text (pos n) s bs l e h =
    let (b, ds, k) = decimal_on-front (suc n) n (omega arith) in
    let all = subst (All IsDigit) k (decimal_on-digits (suc n) n) in
    let here : peek s ≡ b = ap first_or_end (h ∙ ap (λ t. t ++ bs) k) in
    let no_sign : number_sign s ≡ ok [] s = unfold number_sign in rw here (ground (arith, all.0)) in
    let (c, f, r) = whole-decimal n [] s bs e h in
    (
      c,
      number-digits [] s s c (scan (decimal n) false) (integer (pos n)) no_sign f
          (ap (λ t. continues_number (first_or_end t)) r ∙ e.0) (value-decimal n l),
      r,
    )
number-int_text (negsuc n) s bs l e h =
    let here : peek s ≡ b'-' = ap first_or_end h in
    let sign : number_sign s ≡ ok (b'-' ∷ []) (advance s) = unfold number_sign in rw here refl in
    let (c, f, r) = whole-decimal (suc n) (b'-' ∷ []) (advance s) bs e (rest-advance s b'-' h) in
    (
      c,
      number-digits (b'-' ∷ []) s (advance s) c (scan (b'-' ∷ decimal (suc n)) false)
          (integer (negsuc n)) sign f (ap (λ t. continues_number (first_or_end t)) r ∙ e.0)
          (value-negative n l),
      r,
    )

-- A word is read in front of a byte that continues no word.
pub word_on-word :
    {A : Type 0} (a : A) (seen w : Bytes) (s : Source) (bs : Bytes)
    → IsBehind bs
    → s.rest ≡ w ++ bs
    → (c : Source) × (word_on a seen w s ≡ ok a c) × (c.rest ≡ bs)
unfolding word_on
word_on-word a seen [] s bs e h =
    let stop : (is_letter (peek s) || is_digit (peek s)) ≡ false =
      ap (λ t. is_letter (first_or_end t) || is_digit (first_or_end t)) h ∙ ground (arith, e) in
    (s, rw stop refl, h)
word_on-word a seen (b ∷ w) s bs e h =
    let (c, f, r) = word_on-word a (seen ++ b ∷ []) w (advance s) bs e (rest-advance s b h) in
    let here : peek s ≡ b = ap first_or_end h in
    let same : (b == b) ≡ true = ground arith in (c, rw here (rw same f), r)
