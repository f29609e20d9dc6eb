-- ===== src/Json/Fuel/Texts.antt =====
-- src/runtime/Json.cpp: what a string consumes, and that its rounds end.
use proto_clojure.Base.{
  ℕ, zero, suc, ◌<◌, refl, not, ◌||◌, Option, none, some, [], ◌∷◌, ◌++◌, arith, ◌==◌, length, Bytes,
  if_split, if_cases, ltb, within,
}
use proto_clojure.Json.Fuel.Leaves.{
  Leaves, Leaves-bind, Leaves-fewer, length-advance, length-advance_le, length-take_run,
}
use proto_clojure.Json.Source.{Source, peek, advance, newline, end_of_input, Parsed, fail, take_run}
use proto_clojure.Json.Texts.{
  hex_digit, hex_step, hex_digits, is_plain, simple_escape, low_value, low_surrogate, code_point,
  push_code_point, escape_from, escape, string_stop, string_round, string_loop, string,
}

hex_step-Leaves :
    (d : Option ℕ) (v : ℕ) (s : Source) → Leaves (suc (length s.rest)) (hex_step d v s)
unfolding hex_step fail
hex_step-Leaves none v s = tt
hex_step-Leaves (some d) v s = omega (arith, length-advance_le s)

hex_digits-Leaves : (n v : ℕ) (s : Source) → Leaves (suc (length s.rest)) (hex_digits n v s)
unfolding hex_digits
hex_digits-Leaves zero v s = omega arith
hex_digits-Leaves (suc n) v s =
    Leaves-bind _ (hex_digits n) (suc (length s.rest)) _ (hex_step-Leaves (hex_digit (peek s)) v s)
      (λ w c l. Leaves-fewer _ (suc (length c.rest)) _ l (hex_digits-Leaves n w c))

low_surrogate-Leaves : (high : ℕ) (s : Source) → Leaves (suc (length s.rest)) (low_surrogate high s)
unfolding low_surrogate low_value fail
low_surrogate-Leaves high s =
    let P = λ (p : Parsed ℕ). Leaves (suc (length s.rest)) p in
    if_cases P (not (peek s == b'\\')) tt (
      if_cases P (not (peek (advance s) == b'u')) tt (
        Leaves-bind _ (low_value high) (suc (length s.rest)) _
          (Leaves-fewer _ (suc (length (advance (advance s)).rest)) _
            (omega (arith, length-advance_le s, length-advance_le (advance s)))
            (hex_digits-Leaves 4 0 (advance (advance s))))
          (λ low c l. if_cases P (ltb low 0xDC00 || ltb 0xDFFF low) tt l)))

code_point-Leaves : (cp : ℕ) (s : Source) → Leaves (suc (length s.rest)) (code_point cp s)
unfolding code_point fail
code_point-Leaves cp s =
    let P = λ (p : Parsed ℕ). Leaves (suc (length s.rest)) p in
    if_cases P (within 0xD800 0xDBFF cp) (low_surrogate-Leaves cp s)
      (if_cases P (within 0xDC00 0xDFFF cp) tt (omega arith))

escape_from-Leaves :
    (out : Bytes) (e : ℕ) (b : Option ℕ) (s : Source)
    → Leaves (suc (length s.rest)) (escape_from out e b s)
unfolding escape_from fail push_code_point
escape_from-Leaves out e (some b) s = omega arith
escape_from-Leaves out e none s =
    let L = suc (length s.rest) in
    if_cases (λ (p : Parsed Bytes). Leaves L p) (e == b'u')
      (Leaves-bind _ (push_code_point out) L L
        (Leaves-bind _ code_point L L (hex_digits-Leaves 4 0 s)
          (λ cp c l. Leaves-fewer _ (suc (length c.rest)) _ l (code_point-Leaves cp c)))
        (λ cp c l. l))
      tt

escape-Leaves : (out : Bytes) (s : Source) → Leaves (length s.rest) (escape out s)
unfolding escape fail
escape-Leaves out s =
    if_split (λ (p : Parsed Bytes). Leaves (length s.rest) p) (peek s == end_of_input) (λ e. tt)
      (λ e.
        Leaves-fewer _ (suc (length (advance s).rest)) _ (omega (arith, length-advance s e))
          (escape_from-Leaves out (peek s) (simple_escape (peek s)) (advance s)))

string_stop-Leaves :
    (more : Bytes → Source → Parsed Bytes) (out : Bytes) (s : Source)
    → ((o : Bytes) (c : Source) → length c.rest < length s.rest → Leaves (length c.rest) (more o c))
    → Leaves (length s.rest) (string_stop more out s)
unfolding string_stop fail newline
string_stop-Leaves more out s h =
    let L = length s.rest in
    let P = λ (p : Parsed Bytes). Leaves L p in
    if_split P (peek s == end_of_input) (λ e. tt)
      (λ e.
        let fewer = length-advance s e in
        if_cases P (peek s == b'"') (omega arith) (
          if_cases P (peek s == b'\n')
            (Leaves-fewer _ (length (advance s).rest) _ (omega arith)
              (h (out ++ b'\n' ∷ []) (newline (advance s)) (omega arith)))
            (Leaves-bind _ more (length (advance s).rest) L (escape-Leaves out (advance s))
              (λ o c l. Leaves-fewer _ (length c.rest) _ (omega arith) (h o c (omega arith))))))

string_loop-Leaves :
    (fuel : ℕ) (out : Bytes) (s : Source)
    → length s.rest < fuel
    → Leaves (length s.rest) (string_loop fuel out s)
unfolding string_loop string_round
string_loop-Leaves zero out s h = elim h [ ]
string_loop-Leaves (suc fuel) out s h =
    let run = take_run is_plain out s in
    let l = length-take_run is_plain s.rest out s refl in
    Leaves-fewer _ (length run.1.rest) _ l (
      string_stop-Leaves (string_loop fuel) run.0 run.1
        (λ o c k. string_loop-Leaves fuel o c (omega arith)))

-- A string ends, and consumes its closing quote.
pub string-Leaves : (s : Source) → Leaves (length s.rest) (string s)
string-Leaves s = string_loop-Leaves (suc (length s.rest)) [] s (omega arith)
