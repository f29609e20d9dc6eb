-- ===== src/Reader/SyntaxQuote/Fill.antt =====
-- src/reader/Reader.cpp: the template of a syntax-quote filled in.
use proto_clojure.Base.{◌≡◌, Bool, true, Option, none, ℤ, some, if◌then◌else◌, Bytes, codes}
use proto_clojure.Reader.Forms.{
  Form, nil_form, boolean, long, large, double, text, named, list, vector, hash_map, hash_set,
  pattern_form, Forms, end, item, Environment, pair_list,
}
use proto_clojure.Reader.SyntaxQuote.{
  Names, starts_with, symbol_name, core, quote_of, unquote_name, splice_name, is_symbol, arg_of,
  list_call, apply_call,
}
use proto_clojure.Reader.Token.{Double}

abbrev pub append : Forms → Forms → Forms
append end ys = ys
append (item x xs) ys = item x (append xs ys)

abbrev pub as_item : Option (Form × Names) → Option (Forms × Names)
as_item none = none
as_item (some (v, after)) = some (item v end, after)

-- `(seq items)`: nil where there are none.
abbrev pub seq_value : Forms → Form
seq_value end = nil_form
seq_value (item x xs) = list (item x xs)

abbrev pub as_value : Option (Forms × Names) → Option (Form × Names)
as_value none = none
as_value (some (xs, after)) = some (seq_value xs, after)

module _ (ev : Form → Form) (items_of : Form → Forms) where
  -- The items of the values of the arguments of `concat`.
  abbrev pub concat_values : Forms → Forms
  concat_values end = end
  concat_values (item p ps) = append (items_of (ev p)) (concat_values ps)

  -- What an evaluator does with the forms that expansions are built from: constants and keywords
  -- are their own values, `quote` gives its form, `list` of one argument, `seq`, `concat` and
  -- `apply` of a builder compute what their documentation says; of all other code nothing is
  -- asked.
  pub record Evaluates (make : Bytes → Forms → Form) : Type 0 where
    pub on_quote : (x : Form) → ev (quote_of x) ≡ x
    pub on_nil : ev nil_form ≡ nil_form
    pub on_boolean : (b : Bool) → ev (boolean b) ≡ boolean b
    pub on_long : (n : ℤ) → ev (long n) ≡ long n
    pub on_large : (s : Bytes) → ev (large s) ≡ large s
    pub on_double : (d : Double) → ev (double d) ≡ double d
    pub on_text : (s : Bytes) → ev (text s) ≡ text s
    pub on_keyword : (s : Bytes) → starts_with b':' s ≡ true → ev (named s) ≡ named s
    pub on_empty : ev (list (item (core (codes "list")) end)) ≡ list end
    pub on_list : (x : Form) → ev (list_call x) ≡ list (item (ev x) end)
    pub on_seq : (x : Form) → ev (pair_list (core (codes "seq")) x) ≡ seq_value (items_of (ev x))
    pub on_concat :
        (ps : Forms) → ev (list (item (core (codes "concat")) ps)) ≡ list (concat_values ps)
    pub on_apply : (b : Bytes) (x : Form) → ev (apply_call b x) ≡ make b (items_of (ev x))
    pub of_list : (xs : Forms) → items_of (list xs) ≡ xs
    pub of_nil : items_of nil_form ≡ end

  module _ (env : Environment) (make : Bytes → Forms → Form) where
    -- The template filled in: the value of each unquoted form in its place, the items of each
    -- spliced form among those of the sequence around it, and each symbol under the name that
    -- stands for it. None where an unquote or a splice is misplaced.
    abbrev pub fill_symbol : Bytes → Names → Form × Names
    fill_symbol s names =
        let (symbol, after) = symbol_name env s names in
        if starts_with b':' s then (named s, names) else (named symbol, after)

    unfoldable pub fill_list :
        Form → Forms → (Names → Option (Forms × Names)) → Names → Option (Form × Names)
    fill_list head (item x end) inside names =
        if is_symbol unquote_name head
        then some (ev x, names)
        else if is_symbol splice_name head
        then none
        else as_value (inside names)
    fill_list head rest inside names =
        if is_symbol unquote_name head
        then none
        else if is_symbol splice_name head
        then none
        else as_value (inside names)

    abbrev pub build : Bytes → Option (Forms × Names) → Option (Form × Names)
    build b none = none
    build b (some (xs, after)) = some (make b xs, after)

    -- The items that an element of a sequence becomes.
    unfoldable pub fill_item :
        (Names → Option (Form × Names)) → Option Form → Option Form → Names → Option (Forms × Names)
    fill_item inside (some x) arg names = some (items_of (ev x), names)
    fill_item inside none (some x) names = some (item (ev x) end, names)
    fill_item inside none none names = as_item (inside names)

    abbrev pub append_to : Forms → Option (Forms × Names) → Option (Forms × Names)
    append_to xs none = none
    append_to xs (some (ys, names)) = some (append xs ys, names)

    abbrev pub fill_on :
        (Names → Option (Forms × Names)) → Option (Forms × Names) → Option (Forms × Names)
    fill_on rest none = none
    fill_on rest (some (xs, after)) = append_to xs (rest after)

    unfoldable mutual
      unfolding fill_list fill_item

      pub fill : Form → Names → Option (Form × Names)
      fill (named s) names = some (fill_symbol s names)
      fill (list end) names = some (list end, names)
      fill (list (item head rest)) names = fill_list head rest (fill_items (item head rest)) names
      fill (vector fs) names = build (codes "vector") (fill_items fs names)
      fill (hash_map fs) names = build (codes "hash-map") (fill_items fs names)
      fill (hash_set fs) names = build (codes "hash-set") (fill_items fs names)
      fill (pattern_form p) names = some (pattern_form p, names)
      fill nil_form names = some (nil_form, names)
      fill (boolean b) names = some (boolean b, names)
      fill (long n) names = some (long n, names)
      fill (large t) names = some (large t, names)
      fill (double d) names = some (double d, names)
      fill (text s) names = some (text s, names)

      pub fill_items : Forms → Names → Option (Forms × Names)
      fill_items end names = some (end, names)
      fill_items (item x xs) names =
          fill_on (fill_items xs)
            (fill_item (fill x) (arg_of splice_name x) (arg_of unquote_name x) names)
