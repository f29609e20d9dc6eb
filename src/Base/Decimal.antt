-- ===== src/Base/Decimal.antt =====
-- Numbers in decimal, as a C++ stream prints them.
use Prim.Native.Nat.{ℕ, zero, suc, ◌+◌, ◌/◌, ◌%◌, ◌≤◌}
use mathlib.Core.List.{[], ◌∷◌, ◌++◌}
use native.Mathlib.Omega.{arith}
use proto_clojure.Base.Lists.{All, All-append}
use proto_clojure.Base.Tests.{ltb, if◌then◌else◌, if_split}
use proto_clojure.Base.Text.{Bytes}

-- The digits of a number, the fuel above it.
unfoldable pub decimal_on : ℕ → ℕ → Bytes
decimal_on zero n = []
decimal_on (suc fuel) n =
    let front = decimal_on fuel (n / 10) in
    if ltb n 10 then (48 + n) ∷ [] else front ++ (48 + n % 10) ∷ []

abbrev pub decimal : ℕ → Bytes
decimal n = decimal_on (suc n) n

abbrev pub IsDigit : ℕ → Type 0
IsDigit c = (48 ≤ c) × (c ≤ 57)

-- A decimal number is made of digits, and is read back.
pub decimal_on-digits : (fuel n : ℕ) → All IsDigit (decimal_on fuel n)
unfolding decimal_on
decimal_on-digits zero n = tt
decimal_on-digits (suc fuel) n =
    if_split (All IsDigit) (ltb n 10) (λ e. ((omega arith, ground arith), tt))
      (λ e.
        All-append IsDigit (decimal_on fuel (n / 10)) ((48 + n % 10) ∷ [])
          (decimal_on-digits fuel (n / 10)) ((omega arith, omega arith), tt))
