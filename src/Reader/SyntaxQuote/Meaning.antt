-- ===== src/Reader/SyntaxQuote/Meaning.antt =====
-- src/reader/Reader.cpp: what the expansion of a syntax-quote evaluates to.
use proto_clojure.Base.{
  ◌≡◌, refl, ap, ◌∙◌, subst, Bool, true, false, Option, none, some, if◌then◌else◌, Bytes, codes,
  Bool-cases, inl, inr,
}
use proto_clojure.Reader.Forms.{
  Form, nil_form, boolean, long, large, double, text, named, list, vector, hash_map, hash_set,
  pattern_form, Forms, end, item, Environment,
}
use proto_clojure.Reader.SyntaxQuote.{
  Names, Quoted, quoted, refused, ◌then_quote◌, starts_with, quote_symbol, unquote_name,
  splice_name, is_symbol, arg_of, list_call, put_piece, as_seq, as_call, piece, quote_list,
  syntax_quote, quote_pieces,
}
use proto_clojure.Reader.SyntaxQuote.Fill.{
  as_item, seq_value, as_value, concat_values, Evaluates, fill_symbol, fill_list, build, fill_item,
  append_to, fill_on, fill, fill_items,
}

module _ (ev : Form → Form) (items_of : Form → Forms) where
  module _ (env : Environment) (make : Bytes → Forms → Form) where
    -- An expansion whose value is what is filled in, with the same names after it; or both fail.
    abbrev pub Means : Quoted Form → Option (Form × Names) → Type 0
    Means (quoted e names) (some (v, after)) = (ev e ≡ v) × (names ≡ after)
    Means (refused m) none = Unit
    Means _ _ = ⊥

    abbrev MeansItems : Quoted Forms → Option (Forms × Names) → Type 0
    MeansItems (quoted ps names) (some (xs, after)) =
        (concat_values ev items_of ps ≡ xs) × (names ≡ after)
    MeansItems (refused m) none = Unit
    MeansItems _ _ = ⊥

    -- One piece, whose items are those of the element.
    abbrev MeansPiece : Quoted Form → Option (Forms × Names) → Type 0
    MeansPiece (quoted p names) (some (xs, after)) = (items_of (ev p) ≡ xs) × (names ≡ after)
    MeansPiece (refused m) none = Unit
    MeansPiece _ _ = ⊥

    module _ (law : Evaluates ev items_of make) where
      piece-Means :
          (q : Quoted Form) (o : Option (Form × Names))
          → Means q o
          → MeansPiece (q then_quote λ x after. quoted (list_call x) after) (as_item o)
      unfolding ◌then_quote◌
      piece-Means (quoted e names) (some (v, after)) (m, k) =
          (ap items_of (law.on_list e) ∙ law.of_list (item (ev e) end) ∙ ap (λ x. item x end) m, k)
      piece-Means (quoted e names) none m = m
      piece-Means (refused e) none m = tt
      piece-Means (refused e) (some x) m = m

      item-Means :
          (expand : Names → Quoted Form) (inside : Names → Option (Form × Names))
          (splice arg : Option Form) (names : Names)
          → Means (expand names) (inside names)
          → MeansPiece
              (piece expand splice arg names)
              (fill_item ev items_of env make inside splice arg names)
      unfolding piece fill_item
      item-Means expand inside (some x) arg names m = (refl, refl)
      item-Means expand inside none (some x) names m =
          (ap items_of (law.on_list x) ∙ law.of_list (item (ev x) end), refl)
      item-Means expand inside none none names m = piece-Means (expand names) (inside names) m

      put-Means :
          (p : Form) (xs : Forms) (q : Quoted Forms) (o : Option (Forms × Names))
          → items_of (ev p) ≡ xs
          → MeansItems q o
          → MeansItems (q then_quote put_piece p) (append_to ev items_of env make xs o)
      unfolding ◌then_quote◌
      put-Means p xs (quoted ps names) (some (ys, after)) e (m, k) = (rw (e, m) refl, k)
      put-Means p xs (quoted ps names) none e m = m
      put-Means p xs (refused x) none e m = tt
      put-Means p xs (refused x) (some ys) e m = m

      rest-Means :
          (q : Quoted Form) (o : Option (Forms × Names)) (rest : Names → Quoted Forms)
          (others : Names → Option (Forms × Names))
          → MeansPiece q o
          → ((names : Names) → MeansItems (rest names) (others names))
          → MeansItems
              (q then_quote λ p after. (rest after then_quote put_piece p))
              (fill_on ev items_of env make others o)
      unfolding ◌then_quote◌
      rest-Means (quoted p names) (some (xs, after)) rest others (m, k) h =
          subst
            (λ n.
              MeansItems (rest names then_quote put_piece p)
                (append_to ev items_of env make xs (others n)))
            k (put-Means p xs (rest names) (others names) m (h names))
      rest-Means (quoted p names) none rest others m h = elim m [ ]
      rest-Means (refused x) none rest others m h = tt
      rest-Means (refused x) (some ys) rest others m h = elim m [ ]

      seq-Means :
          (q : Quoted Forms) (o : Option (Forms × Names))
          → MeansItems q o
          → Means (q then_quote as_seq) (as_value o)
      unfolding ◌then_quote◌
      seq-Means (quoted ps names) (some (xs, after)) (m, k) = (
        law.on_seq _
            ∙ ap (λ x. seq_value (items_of x)) (law.on_concat ps)
            ∙ ap seq_value (law.of_list (concat_values ev items_of ps) ∙ m),
        k,
      )
      seq-Means (quoted ps names) none m = m
      seq-Means (refused x) none m = tt
      seq-Means (refused x) (some ys) m = m

      items_of-seq : (xs : Forms) → items_of (seq_value xs) ≡ xs
      items_of-seq end = law.of_nil
      items_of-seq (item x xs) = law.of_list (item x xs)

      call-Means :
          (b : Bytes) (q : Quoted Forms) (o : Option (Forms × Names))
          → MeansItems q o
          → Means (q then_quote as_call b) (build ev items_of env make b o)
      unfolding ◌then_quote◌
      call-Means b (quoted ps names) (some (xs, after)) (m, k) = (
        law.on_apply b _
            ∙ ap (λ x. make b (items_of x))
                (law.on_seq _
                  ∙ ap (λ x. seq_value (items_of x)) (law.on_concat ps)
                  ∙ ap seq_value (law.of_list (concat_values ev items_of ps)))
            ∙ ap (make b) (items_of-seq (concat_values ev items_of ps) ∙ m),
        k,
      )
      call-Means b (quoted ps names) none m = m
      call-Means b (refused x) none m = tt
      call-Means b (refused x) (some ys) m = m

      symbol-Means :
          (s : Bytes) (names : Names)
          → Means (quote_symbol env s names) (some (fill_symbol ev items_of env make s names))
      unfolding quote_symbol
      symbol-Means s names = elim (Bool-cases (starts_with b':' s)) [
        | inl e ↦ rw e (law.on_keyword s e, refl)
        | inr e ↦ rw e (law.on_quote _, refl)
      ]

      Means-if :
          (b : Bool) (q r : Quoted Form) (o p : Option (Form × Names))
          → Means q o
          → Means r p
          → Means (if b then q else r) (if b then o else p)
      Means-if true q r o p h k = h
      Means-if false q r o p h k = k

      list-Means :
          (head : Form) (rest : Forms) (q : Names → Quoted Forms)
          (o : Names → Option (Forms × Names)) (names : Names)
          → MeansItems (q names) (o names)
          → Means (quote_list head rest q names) (fill_list ev items_of env make head rest o names)
      unfolding quote_list fill_list
      list-Means head end q o names h =
          Means-if (is_symbol unquote_name head) _ _ _ _ tt
            (Means-if (is_symbol splice_name head) _ _ _ _ tt (seq-Means (q names) (o names) h))
      list-Means head (item x end) q o names h =
          Means-if (is_symbol unquote_name head) _ _ _ _ (refl, refl)
            (Means-if (is_symbol splice_name head) _ _ _ _ tt (seq-Means (q names) (o names) h))
      list-Means head (item x (item y ys)) q o names h =
          Means-if (is_symbol unquote_name head) _ _ _ _ tt
            (Means-if (is_symbol splice_name head) _ _ _ _ tt (seq-Means (q names) (o names) h))

      mutual
        unfolding syntax_quote fill

        form-Means :
            (t : Form) (names : Names)
            → Means (syntax_quote env t names) (fill ev items_of env make t names)
        form-Means (named s) names = symbol-Means s names
        form-Means (list end) names = (law.on_empty, refl)
        form-Means (list (item head rest)) names =
            list-Means head rest (quote_pieces env (item head rest))
              (fill_items ev items_of env make (item head rest)) names
              (items-Means (item head rest) names)
        form-Means (vector fs) names =
            call-Means (codes "vector") (quote_pieces env fs names)
              (fill_items ev items_of env make fs names) (items-Means fs names)
        form-Means (hash_map fs) names =
            call-Means (codes "hash-map") (quote_pieces env fs names)
              (fill_items ev items_of env make fs names) (items-Means fs names)
        form-Means (hash_set fs) names =
            call-Means (codes "hash-set") (quote_pieces env fs names)
              (fill_items ev items_of env make fs names) (items-Means fs names)
        form-Means (pattern_form p) names = (law.on_quote (pattern_form p), refl)
        form-Means nil_form names = (law.on_nil, refl)
        form-Means (boolean b) names = (law.on_boolean b, refl)
        form-Means (long n) names = (law.on_long n, refl)
        form-Means (large t) names = (law.on_large t, refl)
        form-Means (double d) names = (law.on_double d, refl)
        form-Means (text s) names = (law.on_text s, refl)

        items-Means :
            (fs : Forms) (names : Names)
            → MeansItems (quote_pieces env fs names) (fill_items ev items_of env make fs names)
        items-Means end names = (refl, refl)
        items-Means (item x xs) names =
            rest-Means _ _ (quote_pieces env xs) (fill_items ev items_of env make xs)
              (item-Means (syntax_quote env x) (fill ev items_of env make x) (arg_of splice_name x)
                (arg_of unquote_name x) names (form-Means x names))
              (items-Means xs)

      -- The expansion of a template evaluates, under every evaluator that treats the forms it is
      -- built from as documented, to the template filled in, with the same generated symbols; and
      -- it is refused exactly where the filling is.
      pub syntax_quote-fill :
          (t : Form) (names : Names)
          → Means (syntax_quote env t names) (fill ev items_of env make t names)
      syntax_quote-fill t names = form-Means t names
