-- ===== src/Reader/Reads/AsCode.antt =====
-- src/reader/Reader.cpp: at one token, EDN mode gives what reading as code gives.
use proto_clojure.Base.{
  ℕ, ◌%◌, ◌≡◌, refl, sym, subst, Bool, true, false, Option, none, some, [], ◌==◌, if_cases,
  if◌then◌else◌, Bytes, codes, equal,
}
use proto_clojure.Reader.Forms.{
  Form, Forms, Environment, FnLiteral, ReaderState, Read, done, failed, out_of_fuel, ◌>>=◌,
}
use proto_clojure.Reader.Parts.{
  symbol_value, symbol_form, map_form, set_form, distinct_or, repeated, keys_of, elements_of, count,
  vector_form, list_form,
}
use proto_clojure.Reader.Reads.{
  edn_error, Close, paren, bracket, brace, unterminated, unterminated_set, then_drop, form_of,
  checked_form, put_form,
}
use proto_clojure.Reader.Token.{TokenKind, Token}

-- Outside `#(...)`, with the given next number.
abbrev pub IsPlain : ℕ → ReaderState → Type 0
IsPlain g st = (st.fn_literal ≡ none) × (st.gensym ≡ g)

-- Where the first gives a result, the second gives the same, in a plain state.
abbrev pub AsCode : {A : Type 0} → ℕ → Read A → Read A → Type 0
AsCode g (done a st) r = (r ≡ done a st) × IsPlain g st
AsCode g (failed e) r = Unit
AsCode g out_of_fuel r = Unit

pub AsCode-bind :
    {A B : Type 0} (g : ℕ) (m n : Read A) (f h : A → ReaderState → Read B)
    → AsCode g m n
    → ((a : A) (st : ReaderState) → IsPlain g st → AsCode g (f a st) (h a st))
    → AsCode g (m >>= f) (n >>= h)
unfolding ◌>>=◌
AsCode-bind g (done a st) n f h (e, p) next = rw e (next a st p)
AsCode-bind g (failed x) n f h e next = tt
AsCode-bind g out_of_fuel n f h e next = tt

-- The state is the one that was given.
abbrev Stays : {A : Type 0} → ReaderState → Read A → Type 0
Stays st (done a after) = after ≡ st
Stays st (failed e) = Unit
Stays st out_of_fuel = Unit

Stays-AsCode :
    {A : Type 0} (g : ℕ) (r : Read A) (st : ReaderState) → Stays st r → IsPlain g st → AsCode g r r
Stays-AsCode g (done a after) st e p = (refl, subst (IsPlain g) (sym e) p)
Stays-AsCode g (failed x) st e p = tt
Stays-AsCode g out_of_fuel st e p = tt

symbol-Stays : (s : Bytes) (st : ReaderState) → st.fn_literal ≡ none → Stays st (symbol_value s st)
unfolding symbol_value
symbol-Stays s st e =
    let P = λ (r : Read Form). Stays st r in
    if_cases P (equal s (codes "nil")) refl (
      if_cases P (equal s (codes "true")) refl
        (if_cases P (equal s (codes "false")) refl (go st.fn_literal e)))
  where
    go : (lit : Option FnLiteral) → lit ≡ none → Stays st (symbol_form s lit st)
    go none h = refl
    go (some lit) h = cc

distinct-Stays :
    (env : Environment) (k : Option Form) (f : Form) (tok : Token) (st : ReaderState)
    → Stays st (distinct_or env k f tok st)
unfolding distinct_or
distinct-Stays env none f tok st = refl
distinct-Stays env (some k) f tok st = tt

map-Stays :
    (env : Environment) (tok : Token) (fs : Forms) (st : ReaderState)
    → Stays st (map_form env tok fs st)
unfolding map_form
map-Stays env tok fs st =
    if_cases (λ (r : Read Form). Stays st r) (count fs % 2 == 0)
      (distinct-Stays env (repeated env [] (keys_of fs)) _ tok st) tt

set-Stays :
    (env : Environment) (tok : Token) (fs : Forms) (st : ReaderState)
    → Stays st (set_form env tok fs st)
unfolding set_form
set-Stays env tok fs st = distinct-Stays env (repeated env [] (elements_of fs)) _ tok st

-- Two functions that agree on plain states.
abbrev pub Alike : {A : Type 0} → ℕ → (ReaderState → Read A) → (ReaderState → Read A) → Type 0
Alike g f h = (st : ReaderState) → IsPlain g st → AsCode g (f st) (h st)

pub drop-AsCode :
    {A : Type 0} (g : ℕ) (m n : Read Form) (f h : ReaderState → Read A)
    → AsCode g m n
    → Alike g f h
    → AsCode g (then_drop m f) (then_drop n h)
drop-AsCode g m n f h e k = AsCode-bind g m n _ _ e (λ a st p. k st p)

-- The two modes at one token.
pub edn-AsCode :
    (env : Environment) (next nextc : Token → ReaderState → Read Form)
    (body bodyc : Close → Bytes → Token → ReaderState → Read Forms) (g : ℕ) (kind : TokenKind)
    (tok : Token) (st : ReaderState)
    → ((t : Token) → Alike g (next t) (nextc t))
    → ((c : Close) (what : Bytes) (t : Token) → Alike g (body c what t) (bodyc c what t))
    → IsPlain g st
    → AsCode g
        (checked_form true (edn_error kind tok.text) tok (form_of env next body kind tok st))
        (checked_form false (edn_error kind tok.text) tok (form_of env nextc bodyc kind tok st))
unfolding checked_form edn_error form_of
edn-AsCode env next nextc body bodyc g TokenKind.hash_underscore tok st hn hb p =
    drop-AsCode g (next tok st) (nextc tok st) (next tok) (nextc tok) (hn tok st p) (hn tok)
edn-AsCode env next nextc body bodyc g TokenKind.integer tok st hn hb p = (refl, p)
edn-AsCode env next nextc body bodyc g TokenKind.float tok st hn hb p = (refl, p)
edn-AsCode env next nextc body bodyc g TokenKind.string tok st hn hb p = (refl, p)
edn-AsCode env next nextc body bodyc g TokenKind.symbol tok st hn hb p =
    Stays-AsCode g (symbol_value tok.text st) st (symbol-Stays tok.text st p.0) p
edn-AsCode env next nextc body bodyc g TokenKind.hash_l_paren tok st hn hb p = tt
edn-AsCode env next nextc body bodyc g TokenKind.l_paren tok st hn hb p =
    AsCode-bind g _ _ list_form list_form (hb paren (unterminated paren) tok st p)
      (λ fs after q. (refl, q))
edn-AsCode env next nextc body bodyc g TokenKind.at tok st hn hb p = tt
edn-AsCode env next nextc body bodyc g TokenKind.quote tok st hn hb p = tt
edn-AsCode env next nextc body bodyc g TokenKind.tilde tok st hn hb p = tt
edn-AsCode env next nextc body bodyc g TokenKind.tilde_at tok st hn hb p = tt
edn-AsCode env next nextc body bodyc g TokenKind.backtick tok st hn hb p = tt
edn-AsCode env next nextc body bodyc g TokenKind.l_bracket tok st hn hb p =
    AsCode-bind g _ _ vector_form vector_form (hb bracket (unterminated bracket) tok st p)
      (λ fs after q. (refl, q))
edn-AsCode env next nextc body bodyc g TokenKind.l_brace tok st hn hb p =
    AsCode-bind g _ _ (map_form env tok) (map_form env tok) (hb brace (unterminated brace) tok st p)
      (λ fs after q.
        Stays-AsCode g (map_form env tok fs after) after (map-Stays env tok fs after) q)
edn-AsCode env next nextc body bodyc g TokenKind.regex tok st hn hb p = tt
edn-AsCode env next nextc body bodyc g TokenKind.hash_l_brace tok st hn hb p =
    AsCode-bind g _ _ (set_form env tok) (set_form env tok) (hb brace unterminated_set tok st p)
      (λ fs after q.
        Stays-AsCode g (set_form env tok fs after) after (set-Stays env tok fs after) q)
edn-AsCode env next nextc body bodyc g TokenKind.error tok st hn hb p = tt
edn-AsCode env next nextc body bodyc g TokenKind.r_paren tok st hn hb p = tt
edn-AsCode env next nextc body bodyc g TokenKind.end_of_file tok st hn hb p = tt
edn-AsCode env next nextc body bodyc g _ tok st hn hb p = tt

pub AsCode-if :
    {A : Type 0} (g : ℕ) (b : Bool) (x y u v : Read A)
    → AsCode g x u
    → AsCode g y v
    → AsCode g (if b then x else y) (if b then u else v)
AsCode-if g true x y u v h k = h
AsCode-if g false x y u v h k = k

abbrev rest_alike : Form → (ReaderState → Read Forms) → ReaderState → Read Forms
rest_alike f more after = more after >>= put_form f

pub rest-AsCode :
    (g : ℕ) (f : Form) (more morec : ReaderState → Read Forms)
    → Alike g more morec
    → Alike g (rest_alike f more) (rest_alike f morec)
rest-AsCode g f more morec h st p =
    AsCode-bind g (more st) (morec st) (put_form f) (put_form f) (h st p) (λ fs after q. (refl, q))
