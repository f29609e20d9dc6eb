-- ===== src/Bytecode/Pool/Adds.antt =====
-- src/runtime/BytecodeModule.cpp: the maps of the constant pool answer what a search of the pool
-- would, no constant stands in it twice, and adding one gives its index.
use proto_clojure.Base.{
  ◌⊎◌, ℕ, zero, suc, ◌<◌, ◌≡◌, refl, ap, sym, ◌∙◌, Option, none, some, inl, inr, List, [], ◌∷◌,
  ◌++◌, Bool-cases, Option-cases, length, get_elem?, get_elem?-append_left, get_elem?-length_append,
  if◌then◌else◌,
}
use proto_clojure.Bytecode.Pool.{
  Const, long, big_integer, double, string, symbol, named, datum, Key, long_key, big_integer_key,
  double_key, string_key, symbol_key, named_key, datum_key, key_of, lookup, Pool, empty_pool,
  add_long, add_big_integer, add_double, add_string, add_symbol, add_named, add_datum,
}
use proto_clojure.Bytecode.Pool.Search.{
  lookup_key, equal_key, equal_key_refl, equal_key→eq, find_const, or_else, find_const-concat,
  find_const_sound,
}

-- What an operation that adds the constant does to the pool.
record Adds (c : Const) (p : Pool) (r : ℕ × Pool) : Type 0 where
  held : (i : ℕ) → lookup_key p (key_of c) ≡ some i → r ≡ (i, p)
  index_is : lookup_key p (key_of c) ≡ none → r.0 ≡ length p.consts
  consts_is : lookup_key p (key_of c) ≡ none → r.1.consts ≡ p.consts ++ c ∷ []
  maps_are :
      lookup_key p (key_of c) ≡ none
      → (k : Key)
      → lookup_key r.1 k
        ≡ (if equal_key k (key_of c) then some (length p.consts) else lookup_key p k)

-- All the operations that add, each by the constant that it adds.
unfoldable pub add_const : Const → Pool → ℕ × Pool
unfolding add_long add_big_integer add_double add_string add_symbol add_named add_datum
add_const (long v) p = add_long v p
add_const (big_integer digits) p = add_big_integer digits p
add_const (double bits) p = add_double bits p
add_const (string s) p = add_string s p
add_const (symbol s interned) p = add_symbol (λ _. interned) s p
add_const (named spelling value) p = add_named spelling value p
add_const (datum value) p = add_datum value p

maps-of :
    (c : Const) (p : Pool) (k : Key)
    → lookup_key p (key_of c) ≡ none
    → lookup_key (add_const c p).1 k
      ≡ (if equal_key k (key_of c) then some (length p.consts) else lookup_key p k)
unfolding add_const
maps-of (long v) p (long_key a) e = rw (e, lookup)
maps-of (long v) p _ e = refl
maps-of (big_integer v) p (big_integer_key a) e = rw (e, lookup)
maps-of (big_integer v) p _ e = refl
maps-of (double v) p (double_key a) e = rw (e, lookup)
maps-of (double v) p _ e = refl
maps-of (string v) p (string_key a) e = rw (e, lookup)
maps-of (string v) p _ e = refl
maps-of (symbol v i) p (symbol_key a) e = rw (e, lookup)
maps-of (symbol v i) p _ e = refl
maps-of (named v i) p (named_key a) e = rw (e, lookup)
maps-of (named v i) p _ e = refl
maps-of (datum v) p (datum_key a) e = rw (e, lookup)
maps-of (datum v) p _ e = rw e

add_const-Adds : (c : Const) (p : Pool) → Adds c p (add_const c p)
unfolding add_const
add_const-Adds (long v) p = record {
  held = λ i e. rw e;
  index_is = λ e. rw e;
  consts_is = λ e. rw e;
  maps_are = λ e k. maps-of (long v) p k e;
}
add_const-Adds (big_integer v) p = record {
  held = λ i e. rw e;
  index_is = λ e. rw e;
  consts_is = λ e. rw e;
  maps_are = λ e k. maps-of (big_integer v) p k e;
}
add_const-Adds (double v) p = record {
  held = λ i e. rw e;
  index_is = λ e. rw e;
  consts_is = λ e. rw e;
  maps_are = λ e k. maps-of (double v) p k e;
}
add_const-Adds (string v) p = record {
  held = λ i e. rw e;
  index_is = λ e. rw e;
  consts_is = λ e. rw e;
  maps_are = λ e k. maps-of (string v) p k e;
}
add_const-Adds (symbol v x) p = record {
  held = λ i e. rw e;
  index_is = λ e. rw e;
  consts_is = λ e. rw e;
  maps_are = λ e k. maps-of (symbol v x) p k e;
}
add_const-Adds (named v x) p = record {
  held = λ i e. rw e;
  index_is = λ e. rw e;
  consts_is = λ e. rw e;
  maps_are = λ e k. maps-of (named v x) p k e;
}
add_const-Adds (datum v) p = record {
  held = λ i e. rw e;
  index_is = λ e. rw e;
  consts_is = λ e. rw e;
  maps_are = λ e k. maps-of (datum v) p k e;
}

-- The maps answer as a search of the constants does, and each constant is the first of its key.
pub record IsPool (p : Pool) : Type 0 where
  pub maps_search : (k : Key) → lookup_key p k ≡ find_const k p.consts
  pub distinct :
      (i : ℕ) (c : Const) → get_elem? p.consts i ≡ some c → find_const (key_of c) p.consts ≡ some i

empty_maps : (k : Key) → lookup_key empty_pool k ≡ none
unfolding lookup
empty_maps (long_key v) = refl
empty_maps _ = refl

pub empty_pool-IsPool : IsPool empty_pool
empty_pool-IsPool = record { maps_search = empty_maps; distinct = λ i c h. cc }

-- A constant was added, or found.
pub record IsAdded (c : Const) (p : Pool) (r : ℕ × Pool) : Type 0 where
  pub still : IsPool r.1
  pub found : (d : Const) × (get_elem? r.1.consts r.0 ≡ some d) × (key_of d ≡ key_of c)
  pub kept : (i : ℕ) → i < length p.consts → get_elem? r.1.consts i ≡ get_elem? p.consts i
  pub again : add_const c r.1 ≡ r

IsAdded-held :
    (c : Const) (p : Pool) (i : ℕ)
    → IsPool p
    → lookup_key p (key_of c) ≡ some i
    → IsAdded c p (i, p)
IsAdded-held c p i v e =
    let (d, at, is, _) =
      find_const_sound p.consts i (key_of c) (sym (v.maps_search (key_of c)) ∙ e) in
    record {
      still = v;
      found = (d, at, is);
      kept = λ j l. refl;
      again = (add_const-Adds c p).held i e;
    }

-- The maps of a pool with one more constant.
fresh_maps :
    (c : Const) (p q : Pool)
    → IsPool p
    → find_const (key_of c) p.consts ≡ none
    → q.consts ≡ p.consts ++ c ∷ []
    → (k : Key)
    → lookup_key q k ≡ (if equal_key k (key_of c) then some (length p.consts) else lookup_key p k)
    → lookup_key q k ≡ find_const k q.consts
fresh_maps c p q v absent consts_is k maps = elim (Bool-cases (equal_key k (key_of c))) [
  | inl h ↦
      let none_yet : find_const k p.consts ≡ none = rw (equal_key→eq k (key_of c) h) absent in
      maps ∙ rw (consts_is, find_const-concat, none_yet, h)
  | inr h ↦ maps ∙ rw (consts_is, find_const-concat, h, v.maps_search k) (or_else_none _)
]
  where
    or_else_none : (o : Option ℕ) → o ≡ or_else o none
    or_else_none none = refl
    or_else_none (some i) = refl

get_elem?-concat :
    (xs : List Const) (c : Const) (i : ℕ) {d : Const}
    → get_elem? (xs ++ c ∷ []) i ≡ some d
    → (get_elem? xs i ≡ some d) ⊎ ((i ≡ length xs) × (d ≡ c))
get_elem?-concat [] c zero h = inr (refl, cc)
get_elem?-concat [] c (suc i) h = cc
get_elem?-concat (x ∷ xs) c zero h = inl h
get_elem?-concat (x ∷ xs) c (suc i) h = elim (get_elem?-concat xs c i h) [
  | inl e ↦ inl e
  | inr e ↦ inr (ap suc e.0, e.1)
]

fresh_distinct :
    (c : Const) (p : Pool)
    → IsPool p
    → find_const (key_of c) p.consts ≡ none
    → (i : ℕ) (d : Const) → get_elem? (p.consts ++ c ∷ []) i ≡ some d
    → find_const (key_of d) (p.consts ++ c ∷ []) ≡ some i
fresh_distinct c p v absent i d h = elim (get_elem?-concat p.consts c i h) [
  | inl old ↦ rw (find_const-concat, v.distinct i d old)
  | inr (i_is, d_is) ↦ rw (d_is, i_is, find_const-concat, absent, equal_key_refl)
]

IsAdded-fresh :
    (c : Const) (p : Pool) → IsPool p → lookup_key p (key_of c) ≡ none → IsAdded c p (add_const c p)
IsAdded-fresh c p v e =
    let r = add_const c p in
    let a = add_const-Adds c p in
    let absent : find_const (key_of c) p.consts ≡ none = sym (v.maps_search (key_of c)) ∙ e in
    let consts_is = a.consts_is e in
    record {
      still = record {
        maps_search = λ k. fresh_maps c p r.1 v absent consts_is k (a.maps_are e k);
        distinct = λ i d h. rw consts_is (fresh_distinct c p v absent i d (rw consts_is at h));
      };
      found = (c, rw (consts_is, a.index_is e) (get_elem?-length_append p.consts [] c), refl);
      kept = λ i l. rw consts_is (get_elem?-append_left p.consts (c ∷ []) i l);
      again =
          (add_const-Adds c r.1).held r.0
            (a.maps_are e (key_of c) ∙ rw (equal_key_refl, a.index_is e));
    }

-- In a pool whose maps are true to it and which holds no key twice, adding a constant of any kind
-- gives an index at which a constant with its key stands and moves no other constant; the maps
-- stay true to the pool and every key single, and adding it again gives the same index and
-- changes nothing.
pub add_const_lem : (c : Const) (p : Pool) → IsPool p → IsAdded c p (add_const c p)
add_const_lem c p v = elim (Option-cases (lookup_key p (key_of c))) [
  | inl e ↦ IsAdded-fresh c p v e
  | inr (i, e) ↦ rw ((add_const-Adds c p).held i e) (IsAdded-held c p i v e)
]
