-- ===== src/Reader/Reads/Within.antt =====
-- src/reader/Reader.cpp: what one token makes of a reader ends within the bytes left.
use proto_clojure.Base.{
  ℕ, suc, ◌≤◌, ◌<◌, ◌≡◌, sym, subst, Bool, true, false, Option, none, some, arith, if_cases,
  if_split, Bytes, codes, Bool-cases, inl, inr,
}
use proto_clojure.Reader.Cursor.Advances.{left, Advances-left}
use proto_clojure.Reader.Forms.{
  Form, Forms, Environment, ReaderState, Read, done, failed, out_of_fuel, ◌>>=◌, next_token,
}
use proto_clojure.Reader.Lexer.Progress.{next_scans, next_progress, next_ahead}
use proto_clojure.Reader.Lexer.{Lexer, next}
use proto_clojure.Reader.Parts.Keeps.{
  Keeps, symbol_value-Keeps, fn_form-Keeps, map_form-Keeps, set_form-Keeps, pattern_value-Keeps,
  quote_form-Keeps,
}
use proto_clojure.Reader.Parts.{
  symbol_value, fn_form, read_fn_literal, map_form, set_form, vector_form, list_form, wrap,
  quote_form, is_some,
}
use proto_clojure.Reader.Reads.{
  is_close, Close, paren, bracket, brace, closes, unterminated, unterminated_set, then_drop,
  form_of, checked_form, put_form, is_discard, list_step, next_step,
}
use proto_clojure.Reader.Token.{TokenKind, is_end, Token}

-- No token is peeked, and at most `n` bytes are left.
abbrev pub IsWithin : ℕ → ReaderState → Type 0
IsWithin n st = (st.lexer.has_peek ≡ false) × (left st.lexer.cursor ≤ n)

-- A result within, or an error.
abbrev pub Ends : {A : Type 0} → ℕ → Read A → Type 0
Ends n (done a st) = IsWithin n st
Ends n (failed e) = Unit
Ends n out_of_fuel = ⊥

pub Ends-bind :
    {A B : Type 0} (m : Read A) (f : A → ReaderState → Read B) (n k : ℕ)
    → Ends n m
    → ((a : A) (st : ReaderState) → IsWithin n st → Ends k (f a st))
    → Ends k (m >>= f)
unfolding ◌>>=◌
Ends-bind (done a st) f n k h next = next a st h
Ends-bind (failed e) f n k h next = tt
Ends-bind out_of_fuel f n k h next = elim h [ ]

IsWithin-more : (n k : ℕ) (st : ReaderState) → n ≤ k → IsWithin n st → IsWithin k st
IsWithin-more n k st l h = (h.0, omega (arith, h.1))

pub Ends-more : {A : Type 0} (m : Read A) (n k : ℕ) → n ≤ k → Ends n m → Ends k m
Ends-more (done a st) n k l h = IsWithin-more n k st l h
Ends-more (failed e) n k l h = tt
Ends-more out_of_fuel n k l h = elim h [ ]

-- What keeps the lexer ends within.
Keeps-Ends :
    {A : Type 0} (m : Read A) (n : ℕ) (st : ReaderState)
    → Keeps st.lexer m
    → IsWithin n st
    → Ends n m
Keeps-Ends (done a after) n st k h =
    subst (λ (l : Lexer). (l.has_peek ≡ false) × (left l.cursor ≤ n)) (sym k) h
Keeps-Ends (failed e) n st k h = tt
Keeps-Ends out_of_fuel n st k h = elim k [ ]

pub token-IsWithin : (n : ℕ) (st : ReaderState) → IsWithin n st → IsWithin n (next_token st).1
unfolding next_token
token-IsWithin n st (p, l) =
    ((next_scans st.lexer p).2, omega (arith, l, Advances-left (next_ahead st.lexer p).0))

-- A token other than the end takes a byte.
token_fewer :
    (n : ℕ) (st : ReaderState)
    → IsWithin n st
    → is_end (next_token st).0.kind ≡ false
    → left (next_token st).1.lexer.cursor < n
unfolding next_token
token_fewer n st (p, l) e = omega (arith, l, next_progress st.lexer p e)

-- On states within `n`, a function ends within it.
abbrev pub EndsOn : {A : Type 0} → ℕ → (ReaderState → Read A) → Type 0
EndsOn n f = (st : ReaderState) → IsWithin n st → Ends n (f st)

pub then_drop-Ends :
    {A : Type 0} (n : ℕ) (m : Read Form) (f : ReaderState → Read A)
    → Ends n m
    → EndsOn n f
    → Ends n (then_drop m f)
then_drop-Ends n m f h next = Ends-bind m _ n n h (λ _ st w. next st w)

pub form_of-Ends :
    (env : Environment) (next : Token → ReaderState → Read Form)
    (body : Close → Bytes → Token → ReaderState → Read Forms) (n : ℕ) (kind : TokenKind)
    (tok : Token) (st : ReaderState)
    → ((t : Token) → EndsOn n (next t))
    → ((c : Close) (what : Bytes) (t : Token) → EndsOn n (body c what t))
    → IsWithin n st
    → Ends n (form_of env next body kind tok st)
unfolding form_of read_fn_literal
form_of-Ends env next body n TokenKind.hash_underscore tok st hn hb w =
    then_drop-Ends n (next tok st) (next tok) (hn tok st w) (hn tok)
form_of-Ends env next body n TokenKind.integer tok st hn hb w = w
form_of-Ends env next body n TokenKind.float tok st hn hb w = w
form_of-Ends env next body n TokenKind.string tok st hn hb w = w
form_of-Ends env next body n TokenKind.symbol tok st hn hb w =
    Keeps-Ends (symbol_value tok.text st) n st (symbol_value-Keeps tok.text st) w
form_of-Ends env next body n TokenKind.hash_l_paren tok st hn hb w =
    if_cases (λ (r : Read Form). Ends n r) (is_some st.fn_literal) tt
      (Ends-bind _ fn_form n n (hb paren (unterminated paren) tok _ w)
        (λ fs after v. Keeps-Ends (fn_form fs after) n after (fn_form-Keeps fs after) v))
form_of-Ends env next body n TokenKind.l_paren tok st hn hb w =
    Ends-bind _ list_form n n (hb paren (unterminated paren) tok st w) (λ fs after v. v)
form_of-Ends env next body n TokenKind.at tok st hn hb w =
    Ends-bind _ (wrap (codes "clojure.core/deref")) n n (hn tok st w) (λ f after v. v)
form_of-Ends env next body n TokenKind.quote tok st hn hb w =
    Ends-bind _ (wrap (codes "quote")) n n (hn tok st w) (λ f after v. v)
form_of-Ends env next body n TokenKind.tilde tok st hn hb w =
    Ends-bind _ (wrap (codes "clojure.core/unquote")) n n (hn tok st w) (λ f after v. v)
form_of-Ends env next body n TokenKind.tilde_at tok st hn hb w =
    Ends-bind _ (wrap (codes "clojure.core/unquote-splicing")) n n (hn tok st w) (λ f after v. v)
form_of-Ends env next body n TokenKind.backtick tok st hn hb w =
    Ends-bind _ (quote_form env tok) n n (hn tok st w) (λ f after v.
      Keeps-Ends (quote_form env tok f after) n after (quote_form-Keeps env tok f after) v)
form_of-Ends env next body n TokenKind.l_bracket tok st hn hb w =
    Ends-bind _ vector_form n n (hb bracket (unterminated bracket) tok st w) (λ fs after v. v)
form_of-Ends env next body n TokenKind.l_brace tok st hn hb w =
    Ends-bind _ (map_form env tok) n n (hb brace (unterminated brace) tok st w) (λ fs after v.
      Keeps-Ends (map_form env tok fs after) n after (map_form-Keeps env tok fs after) v)
form_of-Ends env next body n TokenKind.regex tok st hn hb w =
    Keeps-Ends _ n st (pattern_value-Keeps tok (env.pattern_error tok.text) st) w
form_of-Ends env next body n TokenKind.hash_l_brace tok st hn hb w =
    Ends-bind _ (set_form env tok) n n (hb brace unterminated_set tok st w) (λ fs after v.
      Keeps-Ends (set_form env tok fs after) n after (set_form-Keeps env tok fs after) v)
form_of-Ends env next body n TokenKind.error tok st hn hb w = tt
form_of-Ends env next body n TokenKind.r_paren tok st hn hb w = tt
form_of-Ends env next body n TokenKind.end_of_file tok st hn hb w = tt
form_of-Ends env next body n _ tok st hn hb w = tt

pub checked-Ends :
    (edn : Bool) (e : Option Bytes) (tok : Token) (n : ℕ) (r : Read Form)
    → Ends n r
    → Ends n (checked_form edn e tok r)
unfolding checked_form
checked-Ends true none tok n r h = h
checked-Ends true (some e) tok n r h = tt
checked-Ends false e tok n r h = h

pub next_step-Ends :
    (form : Token → ReaderState → Read Form) (macro tok : Token) (n : ℕ) (st : ReaderState)
    → (is_end tok.kind ≡ false → Ends n (form tok st))
    → Ends n (next_step form macro tok st)
unfolding next_step
next_step-Ends form macro tok n st h =
    if_split (λ (r : Read Form). Ends n r) (is_end tok.kind) (λ _. tt) h

-- The forms behind one that ended.
pub rest-Ends : (n : ℕ) (f : Form) (m : Read Forms) → Ends n m → Ends n (m >>= put_form f)
rest-Ends n f m h = Ends-bind m (put_form f) n n h (λ fs st w. w)

pub list_step-Ends :
    (next form : Token → ReaderState → Read Form) (more : ReaderState → Read Forms) (close : Close)
    (what : Bytes) (opening tok : Token) (n : ℕ) (st : ReaderState)
    → IsWithin (suc n) st
    → (is_end tok.kind ≡ false → IsWithin n st)
    → ((t : Token) → EndsOn n (next t))
    → ((t : Token) → EndsOn n (form t))
    → EndsOn n more
    → Ends (suc n) (list_step next form more close what opening tok st)
unfolding list_step
list_step-Ends next form more close what opening tok n st w fewer hn hf hm =
    let P = λ (r : Read Forms). Ends (suc n) r in
    let up = λ (r : Read Forms) (h : Ends n r). Ends-more r n (suc n) (omega arith) h in
    if_split P (is_end tok.kind) (λ _. tt)
      (λ e. if_cases P (closes close tok.kind) w (
        if_cases P (is_discard tok.kind)
          (up _ (then_drop-Ends n (next tok st) more (hn tok st (fewer e)) hm))
          (if_cases P (is_close tok.kind) tt (
            up _ (
              Ends-bind (form tok st) _ n n (hf tok st (fewer e))
                (λ f after v. rest-Ends n f (more after) (hm after v)))))))

-- With no bytes left the token is the end.
pub end_of_source : (st : ReaderState) → IsWithin 0 st → is_end (next_token st).0.kind ≡ true
end_of_source st w = elim (Bool-cases (is_end (next_token st).0.kind)) [
  | inl e ↦ e
  | inr e ↦ absurd (omega (arith, token_fewer 0 st w e))
]

-- Behind a token other than the end a byte fewer is left.
pub behind-IsWithin :
    (n : ℕ) (st : ReaderState)
    → IsWithin (suc n) st
    → is_end (next_token st).0.kind ≡ false
    → IsWithin n (next_token st).1
behind-IsWithin n st w e =
    ((token-IsWithin (suc n) st w).0, omega (arith, token_fewer (suc n) st w e))
