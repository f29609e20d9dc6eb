-- ===== src/Json/Fuel/Leaves.antt =====
-- src/runtime/Json.cpp: outcomes that leave fewer bytes than a bound, and what the source's
-- operations leave.
use proto_clojure.Base.{
  ℕ, suc, ◌≤◌, ◌<◌, ◌≡◌, refl, Bool, true, false, ◌||◌, [], ◌∷◌, ◌++◌, arith, ◌==◌, length, Bytes,
  if◌then◌else◌, if_cases,
}
use proto_clojure.Json.Source.{
  Source, peek, advance, advance_on, newline, end_of_input, Parsed, ok, err, out_of_fuel, fail,
  ◌>>=◌, skip_on, is_space, skip_whitespace, take_run_on, first_or_end,
}

-- A result leaves fewer than `n` bytes, an error is an outcome, and running out of fuel is none.
abbrev pub Leaves : {A : Type 0} → ℕ → Parsed A → Type 0
Leaves n (ok a s) = length s.rest < n
Leaves n (err e) = Unit
Leaves n out_of_fuel = ⊥

pub Leaves-bind :
    {A B : Type 0} (m : Parsed A) (f : A → Source → Parsed B) (n k : ℕ)
    → Leaves n m
    → ((a : A) (s : Source) → length s.rest < n → Leaves k (f a s))
    → Leaves k (m >>= f)
unfolding ◌>>=◌
Leaves-bind (ok a s) f n k h next = next a s h
Leaves-bind (err e) f n k h next = tt
Leaves-bind out_of_fuel f n k h next = elim h [ ]

pub Leaves-fewer : {A : Type 0} (m : Parsed A) (n k : ℕ) → n ≤ k → Leaves n m → Leaves k m
Leaves-fewer (ok a s) n k l h = omega arith
Leaves-fewer (err e) n k l h = tt
Leaves-fewer out_of_fuel n k l h = elim h [ ]

pub fail-Leaves : (A : Type 0) (what : Bytes) (s : Source) (n : ℕ) → Leaves n (fail {A = A} what s)
unfolding fail
fail-Leaves A what s n = tt

pub length-advance :
    (s : Source) → (peek s == end_of_input) ≡ false → suc (length (advance s).rest) ≡ length s.rest
unfolding advance_on
length-advance s h = go s.rest s h
  where
    go :
        (bs : Bytes) (s : Source)
        → (first_or_end bs == end_of_input) ≡ false
        → suc (length (advance_on bs s).rest) ≡ length bs
    go [] s h = ground arith
    go (b ∷ bs) s h = refl

-- A byte that the test finds is consumed.
pub length-advance_byte :
    (s : Source) (b : ℕ)
    → (peek s == b) ≡ true
    → b < 256
    → suc (length (advance s).rest) ≡ length s.rest
length-advance_byte s b h l = length-advance s (ground arith)

pub length-advance_le : (s : Source) → length (advance s).rest ≤ length s.rest
unfolding advance_on
length-advance_le s = go s.rest s refl
  where
    go : (bs : Bytes) (s : Source) → bs ≡ s.rest → length (advance_on bs s).rest ≤ length bs
    go [] s h = ground arith
    go (b ∷ bs) s h = omega arith

pub length-newline : (s : Source) → length (newline s).rest ≡ length s.rest
unfolding newline
length-newline s = refl

length-skip_on : (bs : Bytes) (s : Source) → s.rest ≡ bs → length (skip_on bs s).rest ≤ length bs
unfolding skip_on newline advance_on
length-skip_on [] s h = rw h (omega arith)
length-skip_on (b ∷ bs) s h =
    let step : (if b == b'\n' then newline (advance s) else advance s).rest ≡ bs =
      rw h (ground arith) in
    let more = length-skip_on bs (if b == b'\n' then newline (advance s) else advance s) step in
    if_cases (λ (c : Source). length c.rest ≤ suc (length bs)) (is_space b || b == b'\n')
      (omega arith) (rw h (omega arith))

pub length-skip_whitespace : (s : Source) → length (skip_whitespace s).rest ≤ length s.rest
unfolding skip_whitespace
length-skip_whitespace s = length-skip_on s.rest s refl

pub length-take_run :
    (p : ℕ → Bool) (bs out : Bytes) (s : Source)
    → s.rest ≡ bs
    → length (take_run_on p out bs s).1.rest ≤ length bs
unfolding take_run_on advance_on
length-take_run p [] out s h = rw h (omega arith)
length-take_run p (b ∷ bs) out s h =
    let step : (advance s).rest ≡ bs = rw h refl in
    let more = length-take_run p bs (out ++ b ∷ []) (advance s) step in
    if_cases (λ (r : Bytes × Source). length r.1.rest ≤ suc (length bs)) (p b) (omega arith)
      (rw h (omega arith))

-- Where the first byte passes the test, the run is not empty.
pub length-take_run_first :
    (p : ℕ → Bool) (bs out : Bytes) (s : Source)
    → s.rest ≡ bs
    → p (first_or_end bs) ≡ true
    → (first_or_end bs == end_of_input) ≡ false
    → length (take_run_on p out bs s).1.rest < length bs
unfolding take_run_on advance_on
length-take_run_first p [] out s h t e = ground arith
length-take_run_first p (b ∷ bs) out s h t e =
    let step : (advance s).rest ≡ bs = rw h refl in
    rw t (omega (arith, length-take_run p bs (out ++ b ∷ []) (advance s) step))
