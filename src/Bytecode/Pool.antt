-- ===== src/Bytecode/Pool.antt =====
-- src/runtime/BytecodeModule.h and BytecodeModule.cpp: the constant pool. A double is kept as its
-- bit pattern, which is how the pool tells doubles apart, and a protoCore object as a number that
-- identifies it. Interning a symbol is protoCore's; it is the parameter of `add_symbol`.
pub mod Search
pub mod Adds
use proto_clojure.Base.{
  ℕ, zero, suc, ◌+◌, Bool, true, false, ◌&&◌, ◌||◌, Option, none, some, List, [], ◌∷◌, ◌++◌, ◌==◌,
  if◌then◌else◌, length, Bytes, equal, ℤ, pos, negsuc,
}

pub data Const : Type 0 where
  long : ℤ → Const
  big_integer : Bytes → Const
  double : ℕ → Const
  string : Bytes → Const
  symbol : Bytes → ℕ → Const
  named : Bytes → ℕ → Const
  datum : ℕ → Const

-- What a constant is found by.
pub data Key : Type 0 where
  long_key : ℤ → Key
  big_integer_key : Bytes → Key
  double_key : ℕ → Key
  string_key : Bytes → Key
  symbol_key : Bytes → Key
  named_key : Bytes → Key
  datum_key : ℕ → Key

abbrev pub key_of : Const → Key
key_of (long v) = long_key v
key_of (big_integer digits) = big_integer_key digits
key_of (double bits) = double_key bits
key_of (string s) = string_key s
key_of (symbol s interned) = symbol_key s
key_of (named spelling value) = named_key spelling
key_of (datum value) = datum_key value

abbrev pub equal_ℤ : ℤ → ℤ → Bool
equal_ℤ (pos a) (pos b) = a == b
equal_ℤ (negsuc a) (negsuc b) = a == b
equal_ℤ _ _ = false

-- `std::unordered_map` from keys to indices, as an association list.
unfoldable pub lookup {ℓ} : {K : Type ℓ} → (K → K → Bool) → K → List (K × ℕ) → Option ℕ
lookup eq k [] = none
lookup eq k ((j, i) ∷ index) = if eq k j then some i else lookup eq k index

-- The fields of the module for its constants. `datum_roots` is the root set that pins the data,
-- none until the first datum.
pub record Pool : Type 0 where
  pub consts : List Const
  pub long_index : List (ℤ × ℕ)
  pub double_index : List (ℕ × ℕ)
  pub big_integer_index : List (Bytes × ℕ)
  pub string_index : List (Bytes × ℕ)
  pub symbol_index : List (Bytes × ℕ)
  pub named_index : List (Bytes × ℕ)
  pub datum_index : List (ℕ × ℕ)
  pub datum_roots : Option (List ℕ)

abbrev pub empty_pool : Pool
empty_pool = record {
  consts = [];
  long_index = [];
  double_index = [];
  big_integer_index = [];
  string_index = [];
  symbol_index = [];
  named_index = [];
  datum_index = [];
  datum_roots = none;
}

-- `findOrAdd`: the index of the constant, the map and the pool.
unfoldable pub find_or_add {ℓ} :
    {K : Type ℓ} → Option ℕ → List (K × ℕ) → K → List Const → Const → ℕ × List (K × ℕ) × List Const
find_or_add (some i) index key consts c = (i, index, consts)
find_or_add none index key consts c =
    (length consts, (key, length consts) ∷ index, consts ++ c ∷ [])

unfoldable pub add_long : ℤ → Pool → ℕ × Pool
unfolding lookup find_or_add
add_long v p =
    let (i, index, consts) =
      find_or_add (lookup equal_ℤ v p.long_index) p.long_index v p.consts (long v) in
    (i, record p { long_index = index; consts = consts })

unfoldable pub add_big_integer : Bytes → Pool → ℕ × Pool
unfolding lookup find_or_add
add_big_integer digits p =
    let (i, index, consts) =
      find_or_add (lookup equal digits p.big_integer_index) p.big_integer_index digits p.consts
        (big_integer digits) in
    (i, record p { big_integer_index = index; consts = consts })

unfoldable pub add_double : ℕ → Pool → ℕ × Pool
unfolding lookup find_or_add
add_double bits p =
    let (i, index, consts) =
      find_or_add (lookup ◌==◌ bits p.double_index) p.double_index bits p.consts (double bits) in
    (i, record p { double_index = index; consts = consts })

unfoldable pub add_string : Bytes → Pool → ℕ × Pool
unfolding lookup find_or_add
add_string s p =
    let (i, index, consts) =
      find_or_add (lookup equal s p.string_index) p.string_index s p.consts (string s) in
    (i, record p { string_index = index; consts = consts })

-- A symbol that the pool holds is not interned again.
unfoldable pub add_symbol : (Bytes → ℕ) → Bytes → Pool → ℕ × Pool
unfolding lookup find_or_add
add_symbol intern s p =
    let (i, index, consts) =
      find_or_add (lookup equal s p.symbol_index) p.symbol_index s p.consts (symbol s (intern s)) in
    (i, record p { symbol_index = index; consts = consts })

unfoldable pub add_named : Bytes → ℕ → Pool → ℕ × Pool
unfolding lookup find_or_add
add_named spelling value p =
    let (i, index, consts) =
      find_or_add (lookup equal spelling p.named_index) p.named_index spelling p.consts
        (named spelling value) in
    (i, record p { named_index = index; consts = consts })

abbrev pin : ℕ → Option (List ℕ) → Option (List ℕ)
pin value none = some (value ∷ [])
pin value (some roots) = some (value ∷ roots)

unfoldable pub add_datum_at : Option ℕ → ℕ → Pool → ℕ × Pool
add_datum_at (some i) value p = (i, p)
add_datum_at none value p = (
  length p.consts,
  record p {
    consts = p.consts ++ datum value ∷ [];
    datum_index = (value, length p.consts) ∷ p.datum_index;
    datum_roots = pin value p.datum_roots;
  },
)

unfoldable pub add_datum : ℕ → Pool → ℕ × Pool
unfolding lookup add_datum_at
add_datum value p = add_datum_at (lookup ◌==◌ value p.datum_index) value p
