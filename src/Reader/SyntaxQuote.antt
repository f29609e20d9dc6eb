-- ===== src/Reader/SyntaxQuote.antt =====
-- src/reader/Reader.cpp: `syntaxQuote`.
pub mod Fill
pub mod Meaning
mod Tests
use proto_clojure.Base.{
  ℕ, zero, suc, ◌+◌, Bool, true, false, not, ◌&&◌, ◌||◌, Option, none, some, List, [], ◌∷◌, ◌++◌,
  ltb, ◌==◌, if◌then◌else◌, length, Bytes, codes, equal,
}
use proto_clojure.Reader.Forms.{
  Form, nil_form, boolean, long, large, double, text, named, list, vector, hash_map, hash_set,
  pattern_form, Forms, end, item, Environment, generated, pair_list,
}

-- The generated symbols of the syntax-quote, and the next number.
pub record Names : Type 0 where
  pub table : List (Bytes × Bytes)
  pub gensym : ℕ

pub data Quoted (A : Type 0) : Type 0 where
  quoted : A → Names → Quoted A
  refused : Bytes → Quoted A

infixl 5 ◌then_quote◌
unfoldable pub ◌then_quote◌ : {A B : Type 0} → Quoted A → (A → Names → Quoted B) → Quoted B
quoted a names then_quote f = f a names
refused message then_quote f = refused message

abbrev pub starts_with : ℕ → Bytes → Bool
starts_with c [] = false
starts_with c (b ∷ bs) = b == c

abbrev pub has : ℕ → Bytes → Bool
has c [] = false
has c (b ∷ bs) = b == c || has c bs

abbrev pub ends_with : ℕ → Bytes → Bool
ends_with c [] = false
ends_with c (b ∷ []) = b == c
ends_with c (b ∷ bs) = ends_with c bs

abbrev pub drop_last : Bytes → Bytes
drop_last [] = []
drop_last (b ∷ []) = []
drop_last (b ∷ bs) = b ∷ drop_last bs

abbrev pub find : Bytes → List (Bytes × Bytes) → Option Bytes
find s [] = none
find s ((k, v) ∷ table) = if equal k s then some v else find s table

-- `foo#`
abbrev pub is_generated : Bytes → Bool
is_generated s = ltb 1 (length s) && ends_with b'#' s && not (has b'/' s)

unfoldable pub from_table : Bytes → Names → Option Bytes → Bytes × Names
from_table s names (some symbol) = (symbol, names)
from_table s names none =
    let symbol = generated (drop_last s) names.gensym (codes "__auto__") in
    (symbol, record { table = (s, symbol) ∷ names.table; gensym = names.gensym + 1 })

abbrev pub resolve : Option (Bytes → Bytes) → Bytes → Bytes
resolve none s = s
resolve (some f) s = f s

-- The symbol that stands for a symbol of the template.
unfoldable pub symbol_name : Environment → Bytes → Names → Bytes × Names
unfolding from_table
symbol_name env s names =
    if is_generated s
    then from_table s names (find s names.table)
    else (resolve env.resolver s, names)

abbrev pub core : Bytes → Form
core s = named (codes "clojure.core/" ++ s)

abbrev pub quote_of : Form → Form
quote_of x = pair_list (named (codes "quote")) x

unfoldable pub quote_symbol : Environment → Bytes → Names → Quoted Form
unfolding symbol_name
quote_symbol env s names =
    let (symbol, after) = symbol_name env s names in
    if starts_with b':' s then quoted (named s) names else quoted (quote_of (named symbol)) after

abbrev pub unquote_name : Bytes
unquote_name = codes "clojure.core/unquote"

abbrev pub splice_name : Bytes
splice_name = codes "clojure.core/unquote-splicing"

abbrev pub is_symbol : Bytes → Form → Bool
is_symbol s (named t) = equal t s
is_symbol s _ = false

-- `(~@ x)` and `(~ x)` as an item.
abbrev pub arg_of : Bytes → Form → Option Form
arg_of s (list (item head (item x end))) = if is_symbol s head then some x else none
arg_of s _ = none

-- `(clojure.core/list x)`
abbrev pub list_call : Form → Form
list_call x = pair_list (core (codes "list")) x

-- `(clojure.core/seq (clojure.core/concat piece...))`
abbrev pub seq_call : Forms → Form
seq_call pieces = pair_list (core (codes "seq")) (list (item (core (codes "concat")) pieces))

-- `(clojure.core/apply builder seq)`
abbrev pub apply_call : Bytes → Form → Form
apply_call builder x = list (item (core (codes "apply")) (item (core builder) (item x end)))

abbrev pub put_piece : Form → Forms → Names → Quoted Forms
put_piece piece rest names = quoted (item piece rest) names

abbrev pub as_seq : Forms → Names → Quoted Form
as_seq pieces names = quoted (seq_call pieces) names

abbrev pub as_call : Bytes → Forms → Names → Quoted Form
as_call builder pieces names = quoted (apply_call builder (seq_call pieces)) names

-- A piece: what is spliced, what is put in, or what the item's expansion gives.
unfoldable pub piece : (Names → Quoted Form) → Option Form → Option Form → Names → Quoted Form
piece expand (some x) arg names = quoted x names
piece expand none (some x) names = quoted (list_call x) names
piece expand none none names = expand names then_quote λ x after. quoted (list_call x) after

-- A list template that is not empty: an unquote, a splice in the wrong place, or the pieces.
unfoldable pub quote_list : Form → Forms → (Names → Quoted Forms) → Names → Quoted Form
quote_list head (item x end) pieces names =
    if is_symbol unquote_name head
    then quoted x names
    else if is_symbol splice_name head
    then refused (codes "splice (~@) not in list")
    else pieces names then_quote as_seq
quote_list head rest pieces names =
    if is_symbol unquote_name head
    then refused (codes "unquote (~) takes exactly one form")
    else if is_symbol splice_name head
    then refused (codes "splice (~@) not in list")
    else pieces names then_quote as_seq

module _ (env : Environment) where
  unfoldable mutual
    unfolding quote_symbol piece quote_list

    pub syntax_quote : Form → Names → Quoted Form
    syntax_quote (named s) names = quote_symbol env s names
    syntax_quote (list end) names = quoted (list (item (core (codes "list")) end)) names
    syntax_quote (list (item head rest)) names =
        quote_list head rest (quote_pieces (item head rest)) names
    syntax_quote (vector fs) names = quote_pieces fs names then_quote as_call (codes "vector")
    syntax_quote (hash_map fs) names = quote_pieces fs names then_quote as_call (codes "hash-map")
    syntax_quote (hash_set fs) names = quote_pieces fs names then_quote as_call (codes "hash-set")
    syntax_quote (pattern_form p) names = quoted (quote_of (pattern_form p)) names
    syntax_quote nil_form names = quoted nil_form names
    syntax_quote (boolean b) names = quoted (boolean b) names
    syntax_quote (long n) names = quoted (long n) names
    syntax_quote (large t) names = quoted (large t) names
    syntax_quote (double d) names = quoted (double d) names
    syntax_quote (text s) names = quoted (text s) names

    -- The arguments of `concat`.
    pub quote_pieces : Forms → Names → Quoted Forms
    quote_pieces end names = quoted end names
    quote_pieces (item x xs) names =
        piece (syntax_quote x) (arg_of splice_name x) (arg_of unquote_name x) names
        then_quote λ p after. (quote_pieces xs after then_quote put_piece p)
