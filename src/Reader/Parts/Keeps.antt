-- ===== src/Reader/Parts/Keeps.antt =====
-- src/reader/Reader.cpp: what the reader makes of a token leaves the lexer alone.
use proto_clojure.Base.{
  ℕ, ◌%◌, ◌≡◌, refl, Option, none, some, [], ◌∷◌, ◌==◌, if_cases, Bytes, codes, equal,
}
use proto_clojure.Reader.Forms.{
  Form, Forms, Environment, FnLiteral, ReaderState, Read, done, failed, out_of_fuel,
}
use proto_clojure.Reader.Parts.{
  ArgIndex, no_arg, zero_arg, too_large, index, arg_index, positional, rest_arg, arg_form,
  percent_form, symbol_form, symbol_value, fn_form, repeated, distinct_or, map_form, set_form,
  pattern_value, quote_result, quote_form, count, keys_of, elements_of,
}
use proto_clojure.Reader.Lexer.{Lexer}
use proto_clojure.Reader.SyntaxQuote.{Quoted, quoted, refused, syntax_quote}
use proto_clojure.Reader.Token.{Token}

abbrev pub Keeps : {A : Type 0} → Lexer → Read A → Type 0
Keeps l (done a st) = st.lexer ≡ l
Keeps l (failed e) = Unit
Keeps l out_of_fuel = ⊥

positional-Keeps :
    (n : ℕ) (lit : FnLiteral) (st : ReaderState) (p : Option Bytes)
    → Keeps st.lexer (positional n lit st p)
unfolding positional
positional-Keeps n lit st none = refl
positional-Keeps n lit st (some s) = refl

rest_arg-Keeps :
    (lit : FnLiteral) (st : ReaderState) (p : Option Bytes) → Keeps st.lexer (rest_arg lit st p)
unfolding rest_arg
rest_arg-Keeps lit st none = refl
rest_arg-Keeps lit st (some s) = refl

arg_form-Keeps :
    (lit : FnLiteral) (s : Bytes) (st : ReaderState) (i : ArgIndex)
    → Keeps st.lexer (arg_form lit s st i)
unfolding arg_form
arg_form-Keeps lit s st no_arg = refl
arg_form-Keeps lit s st zero_arg = tt
arg_form-Keeps lit s st too_large = tt
arg_form-Keeps lit s st (index n) = positional-Keeps n _ st _

symbol_form-Keeps :
    (s : Bytes) (lit : Option FnLiteral) (st : ReaderState) → Keeps st.lexer (symbol_form s lit st)
unfolding symbol_form percent_form
symbol_form-Keeps s none st = refl
symbol_form-Keeps [] (some lit) st = refl
symbol_form-Keeps (b ∷ bs) (some lit) st =
    if_cases (λ (r : Read Form). Keeps st.lexer r) (b == b'%')
      (if_cases (λ (r : Read Form). Keeps st.lexer r) (equal bs (b'&' ∷ []))
        (rest_arg-Keeps lit st lit.rest_param) (arg_form-Keeps lit (b ∷ bs) st (arg_index bs)))
      refl

pub symbol_value-Keeps : (s : Bytes) (st : ReaderState) → Keeps st.lexer (symbol_value s st)
unfolding symbol_value
symbol_value-Keeps s st =
    let P = λ (r : Read Form). Keeps st.lexer r in
    if_cases P (equal s (codes "nil")) refl (
      if_cases P (equal s (codes "true")) refl
        (if_cases P (equal s (codes "false")) refl (symbol_form-Keeps s st.fn_literal st)))

pub fn_form-Keeps : (body : Forms) (st : ReaderState) → Keeps st.lexer (fn_form body st)
unfolding fn_form
fn_form-Keeps body st = refl

distinct_or-Keeps :
    (env : Environment) (k : Option Form) (f : Form) (tok : Token) (st : ReaderState)
    → Keeps st.lexer (distinct_or env k f tok st)
unfolding distinct_or
distinct_or-Keeps env none f tok st = refl
distinct_or-Keeps env (some k) f tok st = tt

pub map_form-Keeps :
    (env : Environment) (tok : Token) (fs : Forms) (st : ReaderState)
    → Keeps st.lexer (map_form env tok fs st)
unfolding map_form
map_form-Keeps env tok fs st =
    if_cases (λ (r : Read Form). Keeps st.lexer r) (count fs % 2 == 0)
      (distinct_or-Keeps env (repeated env [] (keys_of fs)) _ tok st) tt

pub set_form-Keeps :
    (env : Environment) (tok : Token) (fs : Forms) (st : ReaderState)
    → Keeps st.lexer (set_form env tok fs st)
unfolding set_form
set_form-Keeps env tok fs st = distinct_or-Keeps env (repeated env [] (elements_of fs)) _ tok st

pub pattern_value-Keeps :
    (tok : Token) (e : Option Bytes) (st : ReaderState) → Keeps st.lexer (pattern_value tok e st)
unfolding pattern_value
pattern_value-Keeps tok none st = refl
pattern_value-Keeps tok (some e) st = tt

quote_result-Keeps :
    (tok : Token) (st : ReaderState) (q : Quoted Form) → Keeps st.lexer (quote_result tok st q)
unfolding quote_result
quote_result-Keeps tok st (quoted f names) = refl
quote_result-Keeps tok st (refused e) = tt

pub quote_form-Keeps :
    (env : Environment) (tok : Token) (f : Form) (st : ReaderState)
    → Keeps st.lexer (quote_form env tok f st)
quote_form-Keeps env tok f st = quote_result-Keeps tok st (syntax_quote env f _)
