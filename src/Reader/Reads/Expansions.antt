-- ===== src/Reader/Reads/Expansions.antt =====
-- src/reader/Reader.cpp: the expansion of a formed template is formed.
use proto_clojure.Base.{Option, none, some, if_cases, Bytes, codes}
use proto_clojure.Reader.Forms.{
  Form, nil_form, boolean, long, large, double, text, named, list, vector, hash_map, hash_set,
  pattern_form, Forms, end, item, Environment, ReaderState, Read, done, failed, out_of_fuel, ◌>>=◌,
}
use proto_clojure.Reader.Parts.{quote_result, quote_form}
use proto_clojure.Reader.SyntaxQuote.{
  Names, Quoted, quoted, refused, ◌then_quote◌, quote_symbol, arg_of, splice_name, unquote_name,
  is_symbol, put_piece, as_seq, as_call, piece, quote_list, syntax_quote, quote_pieces, starts_with,
}
use proto_clojure.Reader.Token.{Token}
use proto_clojure.Reader.Reads.Literals.{IsFormed, AreFormed}

-- What holds of a result.
abbrev pub Holds : {A : Type 0} → (A → Type 0) → Read A → Type 0
Holds P (done a st) = P a
Holds P (failed e) = Unit
Holds P out_of_fuel = Unit

pub Holds-bind :
    {A B : Type 0} (P : A → Type 0) (Q : B → Type 0) (m : Read A) (f : A → ReaderState → Read B)
    → Holds P m
    → ((a : A) (st : ReaderState) → P a → Holds Q (f a st))
    → Holds Q (m >>= f)
unfolding ◌>>=◌
Holds-bind P Q (done a st) f h next = next a st h
Holds-bind P Q (failed e) f h next = tt
Holds-bind P Q out_of_fuel f h next = tt

-- What holds of an expansion.
abbrev HoldsOf : {A : Type 0} → (A → Type 0) → Quoted A → Type 0
HoldsOf P (quoted a names) = P a
HoldsOf P (refused m) = Unit

HoldsOf-bind :
    {A B : Type 0} (P : A → Type 0) (Q : B → Type 0) (q : Quoted A) (f : A → Names → Quoted B)
    → HoldsOf P q
    → ((a : A) (names : Names) → P a → HoldsOf Q (f a names))
    → HoldsOf Q (q then_quote f)
unfolding ◌then_quote◌
HoldsOf-bind P Q (quoted a names) f h next = next a names h
HoldsOf-bind P Q (refused m) f h next = tt

module _ (env : Environment) where
  abbrev OptionFormed : Option Form → Type 0
  OptionFormed none = Unit
  OptionFormed (some x) = IsFormed env x

  arg_of-Formed : (s : Bytes) (x : Form) → IsFormed env x → OptionFormed (arg_of s x)
  unfolding IsFormed
  arg_of-Formed s (list (item head (item x end))) h =
      if_cases OptionFormed (is_symbol s head) h.1.0 tt
  arg_of-Formed s (list (item head (item x (item y ys)))) h = tt
  arg_of-Formed s (list (item head end)) h = tt
  arg_of-Formed s (list end) h = tt
  arg_of-Formed s (vector fs) h = tt
  arg_of-Formed s (hash_map fs) h = tt
  arg_of-Formed s (hash_set fs) h = tt
  arg_of-Formed s nil_form h = tt
  arg_of-Formed s (boolean b) h = tt
  arg_of-Formed s (long n) h = tt
  arg_of-Formed s (large n) h = tt
  arg_of-Formed s (double n) h = tt
  arg_of-Formed s (text n) h = tt
  arg_of-Formed s (named n) h = tt
  arg_of-Formed s (pattern_form n) h = tt

  piece-Formed :
      (expand : Names → Quoted Form) (splice arg : Option Form) (names : Names)
      → OptionFormed splice
      → OptionFormed arg
      → HoldsOf (IsFormed env) (expand names)
      → HoldsOf (IsFormed env) (piece expand splice arg names)
  unfolding piece IsFormed
  piece-Formed expand (some x) arg names hs ha h = hs
  piece-Formed expand none (some x) names hs ha h = (tt, (ha, tt))
  piece-Formed expand none none names hs ha h =
      HoldsOf-bind (IsFormed env) (IsFormed env) (expand names) _ h (λ x after k. (tt, (k, tt)))

  seq-Formed :
      (q : Quoted Forms) → HoldsOf (AreFormed env) q → HoldsOf (IsFormed env) (q then_quote as_seq)
  unfolding IsFormed
  seq-Formed q h =
      HoldsOf-bind (AreFormed env) (IsFormed env) q as_seq h (λ ps names k. (tt, ((tt, k), tt)))

  call-Formed :
      (b : Bytes) (q : Quoted Forms)
      → HoldsOf (AreFormed env) q
      → HoldsOf (IsFormed env) (q then_quote as_call b)
  unfolding IsFormed
  call-Formed b q h =
      HoldsOf-bind (AreFormed env) (IsFormed env) q (as_call b) h
        (λ ps names k. (tt, (tt, ((tt, ((tt, k), tt)), tt))))

  list-Formed :
      (head : Form) (rest : Forms) (q : Names → Quoted Forms) (names : Names)
      → AreFormed env rest
      → HoldsOf (AreFormed env) (q names)
      → HoldsOf (IsFormed env) (quote_list head rest q names)
  unfolding quote_list IsFormed
  list-Formed head end q names r h =
      let P = λ (x : Quoted Form). HoldsOf (IsFormed env) x in
      if_cases P (is_symbol unquote_name head) tt
        (if_cases P (is_symbol splice_name head) tt (seq-Formed (q names) h))
  list-Formed head (item x end) q names r h =
      let P = λ (x : Quoted Form). HoldsOf (IsFormed env) x in
      if_cases P (is_symbol unquote_name head) r.0
        (if_cases P (is_symbol splice_name head) tt (seq-Formed (q names) h))
  list-Formed head (item x (item y ys)) q names r h =
      let P = λ (x : Quoted Form). HoldsOf (IsFormed env) x in
      if_cases P (is_symbol unquote_name head) tt
        (if_cases P (is_symbol splice_name head) tt (seq-Formed (q names) h))

  symbol-Formed : (s : Bytes) (names : Names) → HoldsOf (IsFormed env) (quote_symbol env s names)
  unfolding quote_symbol IsFormed
  symbol-Formed s names =
      if_cases (λ (x : Quoted Form). HoldsOf (IsFormed env) x) (starts_with b':' s) tt
        (tt, (tt, tt))

  mutual
    unfolding syntax_quote IsFormed

    quote-Formed :
        (t : Form) (names : Names)
        → IsFormed env t
        → HoldsOf (IsFormed env) (syntax_quote env t names)
    quote-Formed (named s) names h = symbol-Formed s names
    quote-Formed (list end) names h = (tt, tt)
    quote-Formed (list (item head rest)) names h =
        list-Formed head rest (quote_pieces env (item head rest)) names h.1
          (pieces-Formed (item head rest) names h)
    quote-Formed (vector fs) names h =
        call-Formed (codes "vector") (quote_pieces env fs names) (pieces-Formed fs names h)
    quote-Formed (hash_map fs) names h =
        call-Formed (codes "hash-map") (quote_pieces env fs names) (pieces-Formed fs names h.1)
    quote-Formed (hash_set fs) names h =
        call-Formed (codes "hash-set") (quote_pieces env fs names) (pieces-Formed fs names h.1)
    quote-Formed (pattern_form p) names h = (tt, (tt, tt))
    quote-Formed nil_form names h = tt
    quote-Formed (boolean b) names h = tt
    quote-Formed (long n) names h = tt
    quote-Formed (large n) names h = tt
    quote-Formed (double n) names h = tt
    quote-Formed (text n) names h = tt

    pieces-Formed :
        (fs : Forms) (names : Names)
        → AreFormed env fs
        → HoldsOf (AreFormed env) (quote_pieces env fs names)
    pieces-Formed end names h = tt
    pieces-Formed (item x xs) names h =
        HoldsOf-bind (IsFormed env) (AreFormed env) _ _
          (piece-Formed (syntax_quote env x) (arg_of splice_name x) (arg_of unquote_name x) names
            (arg_of-Formed splice_name x h.0) (arg_of-Formed unquote_name x h.0)
            (quote-Formed x names h.0))
          (λ p after k.
            HoldsOf-bind (AreFormed env) (AreFormed env) (quote_pieces env xs after) (put_piece p)
              (pieces-Formed xs after h.1) (λ ps n m. (k, m)))

  quote_result-Formed :
      (tok : Token) (st : ReaderState) (q : Quoted Form)
      → HoldsOf (IsFormed env) q
      → Holds (IsFormed env) (quote_result tok st q)
  unfolding quote_result
  quote_result-Formed tok st (quoted f names) h = h
  quote_result-Formed tok st (refused m) h = tt

  pub quote_form-Formed :
      (tok : Token) (f : Form) (st : ReaderState)
      → IsFormed env f
      → Holds (IsFormed env) (quote_form env tok f st)
  quote_form-Formed tok f st h =
      quote_result-Formed tok st (syntax_quote env f _) (quote-Formed f _ h)
