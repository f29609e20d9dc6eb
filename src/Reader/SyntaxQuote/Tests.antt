-- ===== src/Reader/SyntaxQuote/Tests.antt =====
-- src/reader/Reader.cpp: an evaluator of the forms that expansions are built from, and runs of
-- the expansion.
use proto_clojure.Base.{
  ◌≡◌, refl, ap, false, none, some, [], ◌∷◌, ◌++◌, if◌then◌else◌, Bytes, codes, equal, decimal_on,
  pos,
}
use proto_clojure.Reader.Forms.{
  Form, nil_form, boolean, long, large, double, text, named, list, vector, hash_map, hash_set,
  pattern_form, Forms, end, item, Environment, pair_list,
}
use proto_clojure.Reader.SyntaxQuote.Fill.{append, seq_value, concat_values, Evaluates, fill}
use proto_clojure.Reader.SyntaxQuote.Meaning.{Means, syntax_quote-fill}
use proto_clojure.Reader.SyntaxQuote.{
  Names, refused, core, unquote_name, splice_name, symbol_name, syntax_quote,
}

abbrev environment : Environment
environment = record {
  map_order = λ fs. fs;
  set_order = λ fs. fs;
  key_equals = λ a b. false;
  resolver = some (λ s. codes "user/" ++ s);
  pattern_error = λ s. none;
  integer_string = λ s. s;
}

abbrev items_of : Form → Forms
items_of (list xs) = xs
items_of (vector xs) = xs
items_of _ = end

abbrev all_items : Forms → Forms
all_items end = end
all_items (item x xs) = append (items_of x) (all_items xs)

abbrev first : Forms → Form
first end = nil_form
first (item x xs) = x

abbrev second : Forms → Form
second end = nil_form
second (item x xs) = first xs

abbrev make : Bytes → Forms → Form
make b xs = vector xs

abbrev call_on : Bytes → Forms → Forms → Form
call_on s raw vals =
    if equal s (codes "quote")
    then first raw
    else if equal s (codes "clojure.core/list")
    then list vals
    else if equal s (codes "clojure.core/seq")
    then seq_value (items_of (first vals))
    else if equal s (codes "clojure.core/concat")
    then list (all_items vals)
    else vector (items_of (second vals))

abbrev call : Form → Forms → Forms → Form
call (named s) raw vals = call_on s raw vals
call f raw vals = nil_form

unfoldable mutual
  evaluate : Form → Form
  evaluate (list (item f args)) = call f args (evaluate_all args)
  evaluate (list end) = list end
  evaluate (named s) = named s
  evaluate nil_form = nil_form
  evaluate (boolean b) = boolean b
  evaluate (long n) = long n
  evaluate (large s) = large s
  evaluate (double d) = double d
  evaluate (text s) = text s
  evaluate (vector xs) = vector xs
  evaluate (hash_map xs) = hash_map xs
  evaluate (hash_set xs) = hash_set xs
  evaluate (pattern_form s) = pattern_form s

  evaluate_all : Forms → Forms
  evaluate_all end = end
  evaluate_all (item x xs) = item (evaluate x) (evaluate_all xs)

concat_lem : (ps : Forms) → all_items (evaluate_all ps) ≡ concat_values evaluate items_of ps
unfolding evaluate
concat_lem end = refl
concat_lem (item p ps) = ap (append (items_of (evaluate p))) (concat_lem ps)

evaluate-Evaluates : Evaluates evaluate items_of make
unfolding evaluate
evaluate-Evaluates = record {
  on_quote = λ x. refl;
  on_nil = refl;
  on_boolean = λ b. refl;
  on_long = λ n. refl;
  on_large = λ s. refl;
  on_double = λ d. refl;
  on_text = λ s. refl;
  on_keyword = λ s e. refl;
  on_empty = refl;
  on_list = λ x. refl;
  on_seq = λ x. refl;
  on_concat = λ ps. ap list (concat_lem ps);
  on_apply = λ b x. refl;
  of_list = λ xs. refl;
  of_nil = refl;
}

abbrev no_names : Names
no_names = record { table = []; gensym = 7 }

-- `(a# ~(quote b) ~@(list 1) [x# a#])
abbrev template : Form
template = list (
    item (named (codes "a#")) (
      item (pair_list (named unquote_name) (pair_list (named (codes "quote")) (named (codes "b"))))
        (item (pair_list (named splice_name) (pair_list (core (codes "list")) (long (pos 1))))
          (item (vector (item (named (codes "x#")) (item (named (codes "a#")) end))) end))))

syntax_quote-fill_example :
    Means evaluate items_of environment make
      (syntax_quote environment template no_names)
      (fill evaluate items_of environment make template no_names)
syntax_quote-fill_example =
    syntax_quote-fill evaluate items_of environment make evaluate-Evaluates template no_names

-- One symbol for `a#` throughout the template.
filled_run :
    fill evaluate items_of environment make template no_names
    ≡ some (
      list (
          item (named (codes "a__7__auto__")) (
            item (named (codes "b")) (
              item (long (pos 1)) (
                item
                  (vector
                    (item (named (codes "x__8__auto__")) (item (named (codes "a__7__auto__")) end)))
                  end)))),
      record {
        table = (codes "x#", codes "x__8__auto__") ∷ (codes "a#", codes "a__7__auto__") ∷ [];
        gensym = 9;
      },
    )
unfolding fill symbol_name evaluate decimal_on
filled_run = refl

misplaced_run :
    syntax_quote environment (pair_list (named splice_name) nil_form) no_names
    ≡ refused (codes "splice (~@) not in list")
unfolding syntax_quote
misplaced_run = refl
