-- ===== src/Reader/Reads/Made.antt =====
-- src/reader/Reader.cpp: symbols and function literals are formed.
use proto_clojure.Base.{
  ℕ, ◌+◌, ◌≡◌, refl, Option, none, some, List, [], ◌∷◌, ◌==◌, if_cases, Bytes, codes, equal,
}
use proto_clojure.Reader.Forms.{Form, Forms, Environment, FnLiteral, ReaderState, Read}
use proto_clojure.Reader.Parts.{
  ArgIndex, no_arg, zero_arg, too_large, index, arg_index, positional, rest_arg, arg_form,
  percent_form, symbol_form, symbol_value, fill_params, rest_forms, literal_of, fn_form,
  distinct_or,
}
use proto_clojure.Reader.Token.{Token}
use proto_clojure.Reader.Reads.Literals.{IsFormed, AreFormed}
use proto_clojure.Reader.Reads.Expansions.{Holds}

module _ (env : Environment) where
  -- A generated or an ordinary symbol.
  positional-Formed :
      (n : ℕ) (lit : FnLiteral) (st : ReaderState) (p : Option Bytes)
      → Holds (IsFormed env) (positional n lit st p)
  unfolding positional IsFormed
  positional-Formed n lit st none = tt
  positional-Formed n lit st (some s) = tt

  rest_arg-Formed :
      (lit : FnLiteral) (st : ReaderState) (p : Option Bytes)
      → Holds (IsFormed env) (rest_arg lit st p)
  unfolding rest_arg IsFormed
  rest_arg-Formed lit st none = tt
  rest_arg-Formed lit st (some s) = tt

  arg_form-Formed :
      (lit : FnLiteral) (s : Bytes) (st : ReaderState) (i : ArgIndex)
      → Holds (IsFormed env) (arg_form lit s st i)
  unfolding arg_form IsFormed
  arg_form-Formed lit s st no_arg = tt
  arg_form-Formed lit s st zero_arg = tt
  arg_form-Formed lit s st too_large = tt
  arg_form-Formed lit s st (index n) = positional-Formed n _ st _

  symbol_form-Formed :
      (s : Bytes) (lit : Option FnLiteral) (st : ReaderState)
      → Holds (IsFormed env) (symbol_form s lit st)
  unfolding symbol_form percent_form IsFormed
  symbol_form-Formed s none st = tt
  symbol_form-Formed [] (some lit) st = tt
  symbol_form-Formed (b ∷ bs) (some lit) st =
      let P = λ (r : Read Form). Holds (IsFormed env) r in
      if_cases P (b == b'%')
        (if_cases P (equal bs (b'&' ∷ [])) (rest_arg-Formed lit st lit.rest_param)
          (arg_form-Formed lit (b ∷ bs) st (arg_index bs)))
        tt

  pub symbol_value-Formed :
      (s : Bytes) (st : ReaderState) → Holds (IsFormed env) (symbol_value s st)
  unfolding symbol_value IsFormed
  symbol_value-Formed s st =
      let P = λ (r : Read Form). Holds (IsFormed env) r in
      if_cases P (equal s (codes "nil")) tt (
        if_cases P (equal s (codes "true")) tt
          (if_cases P (equal s (codes "false")) tt (symbol_form-Formed s st.fn_literal st)))

  rest_forms-Formed : (p : Option Bytes) → AreFormed env (rest_forms p)
  unfolding IsFormed
  rest_forms-Formed none = tt
  rest_forms-Formed (some s) = (tt, (tt, tt))

  fill_params-Formed :
      (i id : ℕ) (ps : List (Option Bytes)) (behind : Forms)
      → AreFormed env behind
      → AreFormed env (fill_params i id ps behind).0
  unfolding fill_params IsFormed
  fill_params-Formed i id [] behind h = h
  fill_params-Formed i id (none ∷ ps) behind h =
      (tt, fill_params-Formed (i + 1) (id + 1) ps behind h)
  fill_params-Formed i id (some s ∷ ps) behind h = (tt, fill_params-Formed (i + 1) id ps behind h)

  pub fn_form-Formed :
      (body : Forms) (st : ReaderState)
      → AreFormed env body
      → Holds (IsFormed env) (fn_form body st)
  unfolding fn_form IsFormed
  fn_form-Formed body st h =
      let lit = literal_of st.fn_literal in
      (
        tt,
        (
          fill_params-Formed 0 st.gensym lit.params (rest_forms lit.rest_param)
              (rest_forms-Formed lit.rest_param),
          (h, tt),
        ),
      )

  pub distinct_or-Formed :
      (k : Option Form) (f : Form) (tok : Token) (st : ReaderState)
      → (k ≡ none → IsFormed env f)
      → Holds (IsFormed env) (distinct_or env k f tok st)
  unfolding distinct_or
  distinct_or-Formed none f tok st h = h refl
  distinct_or-Formed (some k) f tok st h = tt
