-- ===== src/Bytecode/Pool/Search.antt =====
-- src/runtime/BytecodeModule.cpp: the keys of constants, and the search of the pool for one.
use proto_clojure.Base.{
  ℕ, suc, ◌<◌, ◌≡◌, refl, ap, sym, Bool, true, false, Option, none, some, inl, inr, List, [], ◌∷◌,
  ◌++◌, arith, ◌==◌, ==_refl, ==→eq, Bool-cases, length, get_elem?, if◌then◌else◌, Bytes, equal,
  equal_iff, ℤ, pos, negsuc,
}
use proto_clojure.Bytecode.Pool.{
  Const, Key, long_key, big_integer_key, double_key, string_key, symbol_key, named_key, datum_key,
  key_of, equal_ℤ, lookup, Pool,
}

-- The map of the key's kind.
abbrev pub lookup_key : Pool → Key → Option ℕ
lookup_key p (long_key v) = lookup equal_ℤ v p.long_index
lookup_key p (big_integer_key digits) = lookup equal digits p.big_integer_index
lookup_key p (double_key bits) = lookup ◌==◌ bits p.double_index
lookup_key p (string_key s) = lookup equal s p.string_index
lookup_key p (symbol_key s) = lookup equal s p.symbol_index
lookup_key p (named_key spelling) = lookup equal spelling p.named_index
lookup_key p (datum_key value) = lookup ◌==◌ value p.datum_index

abbrev pub equal_key : Key → Key → Bool
equal_key (long_key a) (long_key b) = equal_ℤ a b
equal_key (big_integer_key a) (big_integer_key b) = equal a b
equal_key (double_key a) (double_key b) = a == b
equal_key (string_key a) (string_key b) = equal a b
equal_key (symbol_key a) (symbol_key b) = equal a b
equal_key (named_key a) (named_key b) = equal a b
equal_key (datum_key a) (datum_key b) = a == b
equal_key _ _ = false

equal_refl : (b : Bytes) → equal b b ≡ true
equal_refl b = (equal_iff b b).1 refl

equal_ℤ_refl : (a : ℤ) → equal_ℤ a a ≡ true
equal_ℤ_refl (pos a) = ==_refl a
equal_ℤ_refl (negsuc a) = ==_refl a

pub equal_key_refl : (k : Key) → equal_key k k ≡ true
equal_key_refl (long_key a) = equal_ℤ_refl a
equal_key_refl (big_integer_key a) = equal_refl a
equal_key_refl (double_key a) = ==_refl a
equal_key_refl (string_key a) = equal_refl a
equal_key_refl (symbol_key a) = equal_refl a
equal_key_refl (named_key a) = equal_refl a
equal_key_refl (datum_key a) = ==_refl a

equal_ℤ→eq : (a b : ℤ) → equal_ℤ a b ≡ true → a ≡ b
equal_ℤ→eq (pos a) (pos b) h = ground arith
equal_ℤ→eq (negsuc a) (negsuc b) h = ground arith
equal_ℤ→eq (pos a) (negsuc b) h = cc
equal_ℤ→eq (negsuc a) (pos b) h = cc

pub equal_key→eq : (k l : Key) → equal_key k l ≡ true → k ≡ l
equal_key→eq (long_key a) (long_key b) h = ap long_key (equal_ℤ→eq a b h)
equal_key→eq (big_integer_key a) (big_integer_key b) h = ap big_integer_key ((equal_iff a b).0 h)
equal_key→eq (double_key a) (double_key b) h = ap double_key (==→eq a b h)
equal_key→eq (string_key a) (string_key b) h = ap string_key ((equal_iff a b).0 h)
equal_key→eq (symbol_key a) (symbol_key b) h = ap symbol_key ((equal_iff a b).0 h)
equal_key→eq (named_key a) (named_key b) h = ap named_key ((equal_iff a b).0 h)
equal_key→eq (datum_key a) (datum_key b) h = ap datum_key (==→eq a b h)
equal_key→eq _ _ h = cc

abbrev pub map_suc : Option ℕ → Option ℕ
map_suc none = none
map_suc (some i) = some (suc i)

-- The index of the first constant with the key.
abbrev pub find_const : Key → List Const → Option ℕ
find_const k [] = none
find_const k (c ∷ consts) = if equal_key k (key_of c) then some 0 else map_suc (find_const k consts)

abbrev pub or_else : Option ℕ → Option ℕ → Option ℕ
or_else none o = o
or_else (some i) o = some i

pub find_const-concat :
    (consts : List Const) (k : Key) (c : Const)
    → find_const k (consts ++ c ∷ [])
      ≡ or_else
          (find_const k consts)
          (if equal_key k (key_of c) then some (length consts) else none)
find_const-concat [] k c = ground arith
find_const-concat (x ∷ consts) k c = elim (Bool-cases (equal_key k (key_of x))) [
  | inl e ↦ rw e
  | inr e ↦ rw (e, find_const-concat consts k c) (go (find_const k consts) (equal_key k (key_of c)))
]
  where
    go :
        (o : Option ℕ) (b : Bool)
        → map_suc (or_else o (if b then some (length consts) else none))
          ≡ or_else (map_suc o) (if b then some (suc (length consts)) else none)
    go none true = refl
    go none false = refl
    go (some i) b = refl

pub find_const_sound :
    (consts : List Const) (j : ℕ) (k : Key)
    → find_const k consts ≡ some j
    → (c : Const) × (get_elem? consts j ≡ some c) × (key_of c ≡ k) × (j < length consts)
find_const_sound [] j k e = cc
find_const_sound (c ∷ consts) j k e = elim (Bool-cases (equal_key k (key_of c))) [
  | inl h ↦
      let first : 0 ≡ j = cc (rw h at e) in
      rw (← first) (c, refl, sym (equal_key→eq k (key_of c) h), omega arith)
  | inr h ↦ later (λ i f. find_const_sound consts i k f) (find_const k consts) refl (rw h at e)
]
  where
    later :
        ((i : ℕ)
          → find_const k consts ≡ some i
          → (d : Const) × (get_elem? consts i ≡ some d) × (key_of d ≡ k) × (i < length consts))
        → (o : Option ℕ) → find_const k consts ≡ o
        → map_suc o ≡ some j
        → (d : Const) × (get_elem? (c ∷ consts) j ≡ some d)
          × (key_of d ≡ k)
          × (j < length (c ∷ consts))
    later ih none f m = cc
    later ih (some i) f m =
        let (d, at, is, lt) = ih i f in
        let next : suc i ≡ j = cc m in rw (← next) (d, at, is, omega arith)
