-- ===== src/Bytecode/MaxStack/Reach.antt =====
-- src/runtime/BytecodeModule.cpp: what `reach` of `computeMaxStack` keeps and adds.
use proto_clojure.Base.{
  ℕ, ◌≤◌, ◌<◌, ◌≡◌, refl, ◌∙◌, Bool, true, false, ◌||◌, Option, none, some, inl, inr, ◌⊎◌, List, [],
  ◌∷◌, arith, tests, leb, ◌==◌, ==_refl, ==→eq, Bool-cases, length, length-set, get_or, set,
  get_or-set_self, get_or-set_ne, if◌then◌else◌,
}
use proto_clojure.Bytecode.MaxStack.{Flow, is_covered, reach}

abbrev pub elem : ℕ → List ℕ → Bool
elem i [] = false
elem i (x ∷ xs) = i == x || elem i xs

-- The position has a depth of at least `x`.
abbrev pub Covered : Flow → ℕ → ℕ → Type 0
Covered s j x = (e : ℕ) × (get_or s.depth j none ≡ some e) × (x ≤ e)

-- What holds of `t` where it comes from `s` by calls of `reach`.
pub record Grows (s t : Flow) : Type 0 where
  pub length_is : length t.depth ≡ length s.depth
  pub deepest_le : s.deepest ≤ t.deepest
  pub covered : (j x : ℕ) → Covered s j x → Covered t j x
  pub pending : (i : ℕ) → elem i s.work ≡ true → elem i t.work ≡ true
  pub fresh :
      (i : ℕ) {e : ℕ}
      → get_or t.depth i none ≡ some e
      → (get_or s.depth i none ≡ some e) ⊎ (elem i t.work ≡ true)

pub Grows-refl : (s : Flow) → Grows s s
Grows-refl s = record {
  length_is = refl;
  deepest_le = omega arith;
  covered = λ j x c. c;
  pending = λ i p. p;
  fresh = λ i h. inl h;
}

pub Grows-trans : {s t u : Flow} → Grows s t → Grows t u → Grows s u
Grows-trans g h = record {
  length_is = h.length_is ∙ g.length_is;
  deepest_le = omega (arith, g.deepest_le, h.deepest_le);
  covered = λ j x c. h.covered j x (g.covered j x c);
  pending = λ i p. h.pending i (g.pending i p);
  fresh = λ i e. elim (h.fresh i e) [
    | inr p ↦ inr p
    | inl e' ↦ elim (g.fresh i e') [ inl e'' ↦ inl e'' | inr p ↦ inr (h.pending i p) ]
  ];
}

pub get_or-set :
    (xs : List (Option ℕ)) (i j : ℕ) (v d : Option ℕ)
    → i < length xs
    → get_or (set xs i v) j d ≡ (if j == i then v else get_or xs j d)
get_or-set xs i j v d l = elim (Bool-cases (j == i)) [
  | inl e ↦ rw (==→eq j i e, ==_refl) (get_or-set_self xs i v d l)
  | inr n ↦ rw n (get_or-set_ne xs i j v d (λ e. cc (rw (e, ==_refl) at n)))
]

-- The write of a greater depth.
Grows-write :
    (s : Flow) (at d : ℕ)
    → at < length s.depth
    → is_covered (get_or s.depth at none) d ≡ false
    → Grows s (record s { depth = set s.depth at (some d); work = at ∷ s.work })
unfolding is_covered
Grows-write s at d l n = record {
  length_is = length-set s.depth at (some d);
  deepest_le = omega arith;
  covered = λ j x (e, is, le). elim (Bool-cases (j == at)) [
    | inl same ↦ (d, ground (arith, get_or-set s.depth at j (some d) none l), ground arith)
    | inr other ↦ (e, ground (arith, get_or-set s.depth at j (some d) none l), le)
  ];
  pending = λ i p. ground arith;
  fresh = λ i {e} h. ground (arith, get_or-set s.depth at i (some d) none l);
}

-- A reached place is covered, and the rest grows.
pub reach-Grows :
    (n at : ℕ) (d : Option ℕ) (s : Flow) → length s.depth ≡ n → Grows s (reach n at d s)
unfolding reach
reach-Grows n at none s l = Grows-refl s
reach-Grows n at (some d) s l =
    elim (Bool-cases (leb n at || is_covered (get_or s.depth at none) d)) [
      | inl stop ↦ rw stop (Grows-refl s)
      | inr go ↦ rw go (Grows-write s at d (ground arith) (ground arith))
    ]

is_covered→le : (o : Option ℕ) (d : ℕ) → is_covered o d ≡ true → (e : ℕ) × (o ≡ some e) × (d ≤ e)
unfolding is_covered
is_covered→le none d h = cc
is_covered→le (some e) d h = (e, refl, omega tests)

pub reach-Covered :
    (n at d : ℕ) (s : Flow) → length s.depth ≡ n → at < n → Covered (reach n at (some d) s) at d
unfolding reach
reach-Covered n at d s l h = elim (Bool-cases (leb n at || is_covered (get_or s.depth at none) d)) [
  | inl stop ↦ rw stop (is_covered→le _ d (ground arith))
  | inr go ↦ rw go (d, get_or-set_self s.depth at (some d) none (omega arith), omega arith)
]
