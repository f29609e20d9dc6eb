-- ===== src/Json/Places.antt =====
-- src/runtime/Json.cpp, `skipWhitespace`: the place behind the blanks.
use proto_clojure.Base.{
  ℕ, ◌+◌, ◌≡◌, ◌⊎◌, refl, ap, sym, subst, ◌∙◌, true, false, inl, inr, [], ◌∷◌, ◌++◌, arith, ◌==◌,
  if◌then◌else◌, Bytes, All,
}
use proto_clojure.Utf8.{is_continuation}
use proto_clojure.Json.RoundTrip.Layout.{is_blank, IsBlank, IsSolid}
use proto_clojure.Json.Source.{Source, advance_on, newline, skip_on, skip_whitespace}

abbrev pub newlines : Bytes → ℕ
newlines [] = 0
newlines (b ∷ bs) = if b == 0x0A then newlines bs + 1 else newlines bs

-- The column behind blanks: each takes one, and a newline goes back to the first.
abbrev pub column_behind : ℕ → Bytes → ℕ
column_behind k [] = k
column_behind k (b ∷ bs) = if b == 0x0A then column_behind 1 bs else column_behind (k + 1) bs

-- The line and the column behind blanks that stand at this source.
abbrev pub IsBehindBlanks : Bytes → Source → Source → Type 0
IsBehindBlanks ws s c = (c.line ≡ s.line + newlines ws) × (c.column ≡ column_behind s.column ws)

abbrev source : Bytes → ℕ → ℕ → Source
source bs line column = record { rest = bs; line = line; column = column }

blank_cases :
    (b : ℕ)
    → IsBlank b
    → (b ≡ 0x0A) ⊎ ((b == 0x0A) ≡ false) × (is_blank b ≡ true) × (is_continuation b ≡ false)
blank_cases b h = ground arith

skip_on-places :
    (ws : Bytes) (b : ℕ) (t : Bytes) (l k : ℕ)
    → All IsBlank ws
    → is_blank b ≡ false
    → IsBehindBlanks ws
        (source (ws ++ b ∷ t) l k)
        (skip_on (ws ++ b ∷ t) (source (ws ++ b ∷ t) l k))
unfolding skip_on newline advance_on
skip_on-places [] b t l k all n = rw n (omega arith, refl)
skip_on-places (w ∷ ws) b t l k all n = elim (blank_cases w all.0) [
  | inl e ↦ let (h, m) = skip_on-places ws b t (l + 1) 1 all.1 n in rw e (omega (arith, h), m)
  | inr (e, s, c) ↦ let (h, m) = skip_on-places ws b t l (k + 1) all.1 n in rw (s, e, c) (h, m)
]

-- Blanks are skipped to the place behind them.
pub skip-places :
    (ws x : Bytes) (s : Source)
    → All IsBlank ws
    → IsSolid x
    → s.rest ≡ ws ++ x
    → IsBehindBlanks ws s (skip_whitespace s)
unfolding skip_whitespace
skip-places ws x s all (b, t, e, n) h =
    let r : s.rest ≡ ws ++ b ∷ t = h ∙ ap (λ y. ws ++ y) e in
    subst (λ y. IsBehindBlanks ws (source y s.line s.column) (skip_on y (source y s.line s.column)))
      (sym r) (skip_on-places ws b t s.line s.column all (ground (arith, n)))
