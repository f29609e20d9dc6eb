-- ===== src/Reader/Reads/Formed.antt =====
-- src/reader/Reader.cpp: every form that is read is formed.
use proto_clojure.Base.{
  ℕ, zero, suc, ◌%◌, ◌≡◌, subst, Bool, true, false, Option, none, some, [], ◌==◌, ==→eq, if_cases,
  if_split, length, Bytes, codes,
}
use proto_clojure.Reader.Forms.{
  Form, hash_map, hash_set, Forms, Environment, ReaderState, Read, done, ◌>>=◌, next_token,
}
use proto_clojure.Reader.Parts.{
  fn_form, read_fn_literal, is_some, map_form, set_form, repeated, keys_of, elements_of, count,
  vector_form, list_form, wrap, pattern_value, quote_form,
}
use proto_clojure.Reader.Reads.{
  edn_error, is_close, Close, paren, bracket, brace, closes, unterminated, unterminated_set,
  then_drop, form_of, checked_form, integer_form, put_form, is_discard, list_step, read_from_token,
  read_next_form, read_list, all_step, read_all, make_reader, form_fuel, read_source,
}
use proto_clojure.Reader.Token.{TokenKind, is_end, Token}
use proto_clojure.Reader.Reads.Literals.{IsFormed, AreFormed, KeepsLiterals, repeated-AreDistinct}
use proto_clojure.Reader.Reads.Expansions.{Holds, Holds-bind, quote_form-Formed}
use proto_clojure.Reader.Reads.Made.{symbol_value-Formed, fn_form-Formed, distinct_or-Formed}

module _ (env : Environment) where
  module _ (keeps : KeepsLiterals env) where
    map_form-Formed :
        (tok : Token) (fs : Forms) (st : ReaderState)
        → AreFormed env fs
        → Holds (IsFormed env) (map_form env tok fs st)
    unfolding map_form IsFormed
    map_form-Formed tok fs st h =
        if_split (λ (r : Read Form). Holds (IsFormed env) r) (count fs % 2 == 0)
          (λ e.
            distinct_or-Formed env (repeated env [] (keys_of fs)) (hash_map (env.map_order fs)) tok
              st
              (λ n.
                keeps.maps fs
                  ((==→eq (count fs % 2) 0 e, (repeated-AreDistinct env [] (keys_of fs) n).0), h)))
          (λ e. tt)

    set_form-Formed :
        (tok : Token) (fs : Forms) (st : ReaderState)
        → AreFormed env fs
        → Holds (IsFormed env) (set_form env tok fs st)
    unfolding set_form IsFormed
    set_form-Formed tok fs st h =
        distinct_or-Formed env (repeated env [] (elements_of fs)) (hash_set (env.set_order fs)) tok
          st (λ n. keeps.sets fs ((repeated-AreDistinct env [] (elements_of fs) n).0, h))

    -- Functions whose results are formed.
    abbrev Makes : (ReaderState → Read Form) → Type 0
    Makes f = (st : ReaderState) → Holds (IsFormed env) (f st)

    abbrev MakesAll : (ReaderState → Read Forms) → Type 0
    MakesAll f = (st : ReaderState) → Holds (AreFormed env) (f st)

    drop-Formed :
        {A : Type 0} (P : A → Type 0) (m : Read Form) (f : ReaderState → Read A)
        → Holds (IsFormed env) m
        → ((st : ReaderState) → Holds P (f st))
        → Holds P (then_drop m f)
    drop-Formed P m f h next = Holds-bind (IsFormed env) P m _ h (λ a st k. next st)

    wrap-Formed :
        (head : Bytes) (m : Read Form)
        → Holds (IsFormed env) m
        → Holds (IsFormed env) (m >>= wrap head)
    unfolding IsFormed
    wrap-Formed head m h =
        Holds-bind (IsFormed env) (IsFormed env) m (wrap head) h (λ f st k. (tt, (k, tt)))

    integer_form-Formed : (b : Bool) (tok : Token) → IsFormed env (integer_form b tok)
    unfolding integer_form IsFormed
    integer_form-Formed true tok = tt
    integer_form-Formed false tok = tt

    pattern-Formed :
        (tok : Token) (e : Option Bytes) (st : ReaderState)
        → Holds (IsFormed env) (pattern_value tok e st)
    unfolding pattern_value IsFormed
    pattern-Formed tok none st = tt
    pattern-Formed tok (some e) st = tt

    form_of-Formed :
        (next : Token → ReaderState → Read Form)
        (body : Close → Bytes → Token → ReaderState → Read Forms) (kind : TokenKind) (tok : Token)
        → ((t : Token) → Makes (next t))
        → ((c : Close) (what : Bytes) (t : Token) → MakesAll (body c what t))
        → Makes (form_of env next body kind tok)
    unfolding form_of read_fn_literal IsFormed
    form_of-Formed next body TokenKind.hash_underscore tok hn hb st =
        drop-Formed (IsFormed env) (next tok st) (next tok) (hn tok st) (hn tok)
    form_of-Formed next body TokenKind.integer tok hn hb st = integer_form-Formed tok.fits_long tok
    form_of-Formed next body TokenKind.float tok hn hb st = tt
    form_of-Formed next body TokenKind.string tok hn hb st = tt
    form_of-Formed next body TokenKind.symbol tok hn hb st = symbol_value-Formed env tok.text st
    form_of-Formed next body TokenKind.hash_l_paren tok hn hb st =
        if_cases (λ (r : Read Form). Holds (IsFormed env) r) (is_some st.fn_literal) tt
          (Holds-bind (AreFormed env) (IsFormed env) _ fn_form (hb paren (unterminated paren) tok _)
            (fn_form-Formed env))
    form_of-Formed next body TokenKind.l_paren tok hn hb st =
        Holds-bind (AreFormed env) (IsFormed env) _ list_form (hb paren (unterminated paren) tok st)
          (λ fs after h. h)
    form_of-Formed next body TokenKind.at tok hn hb st =
        wrap-Formed (codes "clojure.core/deref") (next tok st) (hn tok st)
    form_of-Formed next body TokenKind.quote tok hn hb st =
        wrap-Formed (codes "quote") (next tok st) (hn tok st)
    form_of-Formed next body TokenKind.tilde tok hn hb st =
        wrap-Formed (codes "clojure.core/unquote") (next tok st) (hn tok st)
    form_of-Formed next body TokenKind.tilde_at tok hn hb st =
        wrap-Formed (codes "clojure.core/unquote-splicing") (next tok st) (hn tok st)
    form_of-Formed next body TokenKind.backtick tok hn hb st =
        Holds-bind (IsFormed env) (IsFormed env) (next tok st) (quote_form env tok) (hn tok st)
          (quote_form-Formed env tok)
    form_of-Formed next body TokenKind.l_bracket tok hn hb st =
        Holds-bind (AreFormed env) (IsFormed env) _ vector_form
          (hb bracket (unterminated bracket) tok st) (λ fs after h. h)
    form_of-Formed next body TokenKind.l_brace tok hn hb st =
        Holds-bind (AreFormed env) (IsFormed env) _ (map_form env tok)
          (hb brace (unterminated brace) tok st) (map_form-Formed tok)
    form_of-Formed next body TokenKind.regex tok hn hb st =
        pattern-Formed tok (env.pattern_error tok.text) st
    form_of-Formed next body TokenKind.hash_l_brace tok hn hb st =
        Holds-bind (AreFormed env) (IsFormed env) _ (set_form env tok)
          (hb brace unterminated_set tok st) (set_form-Formed tok)
    form_of-Formed next body TokenKind.error tok hn hb st = tt
    form_of-Formed next body TokenKind.r_paren tok hn hb st = tt
    form_of-Formed next body TokenKind.end_of_file tok hn hb st = tt
    form_of-Formed next body _ tok hn hb st = tt

    checked-Formed :
        (edn : Bool) (e : Option Bytes) (tok : Token) (r : Read Form)
        → Holds (IsFormed env) r
        → Holds (IsFormed env) (checked_form edn e tok r)
    unfolding checked_form
    checked-Formed true none tok r h = h
    checked-Formed true (some e) tok r h = tt
    checked-Formed false e tok r h = h

    put-Formed :
        (m : Read Form) (more : ReaderState → Read Forms)
        → Holds (IsFormed env) m
        → MakesAll more
        → Holds (AreFormed env) (m >>= λ f after. (more after >>= put_form f))
    unfolding IsFormed
    put-Formed m more h k = Holds-bind (IsFormed env) (AreFormed env) m _ h (λ f after formed.
        Holds-bind (AreFormed env) (AreFormed env) (more after) (put_form f) (k after)
          (λ fs st all. (formed, all)))

    list_step-Formed :
        (next form : Token → ReaderState → Read Form) (more : ReaderState → Read Forms)
        (close : Close) (what : Bytes) (opening tok : Token)
        → ((t : Token) → Makes (next t))
        → ((t : Token) → Makes (form t))
        → MakesAll more
        → MakesAll (list_step next form more close what opening tok)
    unfolding list_step IsFormed
    list_step-Formed next form more close what opening tok hn hf hm st =
        let P = λ (r : Read Forms). Holds (AreFormed env) r in
        if_cases P (is_end tok.kind) tt (
          if_cases P (closes close tok.kind) tt (
            if_cases P (is_discard tok.kind)
              (drop-Formed (AreFormed env) (next tok st) more (hn tok st) hm)
              (if_cases P (is_close tok.kind) tt (put-Formed (form tok st) more (hf tok st) hm))))

    module _ (edn : Bool) where
      mutual
        unfolding read_from_token

        form-Formed : (fuel : ℕ) (tok : Token) → Makes (read_from_token env edn fuel tok)
        form-Formed zero tok st = tt
        form-Formed (suc fuel) tok st = checked-Formed edn (edn_error tok.kind tok.text) tok _ (
            form_of-Formed (read_next_form env edn fuel) (read_list env edn fuel) tok.kind tok
              (next-Formed fuel) (list-Formed fuel) st)

        next-Formed : (fuel : ℕ) (macro : Token) → Makes (read_next_form env edn fuel macro)
        next-Formed zero macro st = tt
        next-Formed (suc fuel) macro st =
            if_cases (λ (r : Read Form). Holds (IsFormed env) r) (is_end (next_token st).0.kind) tt
              (form-Formed fuel (next_token st).0 (next_token st).1)

        list-Formed :
            (fuel : ℕ) (close : Close) (what : Bytes) (opening : Token)
            → MakesAll (read_list env edn fuel close what opening)
        list-Formed zero close what opening st = tt
        list-Formed (suc fuel) close what opening st =
            list_step-Formed (read_next_form env edn fuel) (read_from_token env edn fuel)
              (read_list env edn fuel close what opening) close what opening (next_token st).0
              (next-Formed fuel) (form-Formed fuel) (list-Formed fuel close what opening)
              (next_token st).1

      all-Formed : (rounds fuel : ℕ) → MakesAll (read_all env edn rounds fuel)
      unfolding read_all all_step IsFormed
      all-Formed zero fuel st = tt
      all-Formed (suc rounds) fuel st =
          let P = λ (r : Read Forms). Holds (AreFormed env) r in
          let tok = (next_token st).0 in
          let after = (next_token st).1 in
          if_cases P (is_end tok.kind) tt (
            if_cases P (is_discard tok.kind)
              (drop-Formed (AreFormed env) (read_next_form env edn fuel tok after)
                (read_all env edn rounds fuel) (next-Formed fuel tok after)
                (all-Formed rounds fuel))
              (put-Formed (read_from_token env edn fuel tok after) (read_all env edn rounds fuel)
                (form-Formed fuel tok after) (all-Formed rounds fuel)))

-- Where the orders in which maps and sets are taken keep what is in them: in every form that is
-- read of a source, each map has a value for each key and no two equal keys, and each set no two
-- equal elements, at any depth.
pub read_source-AreFormed :
    (env : Environment) (edn : Bool) (source : Bytes) (id : ℕ) (fs : Forms) (st : ReaderState)
    → KeepsLiterals env
    → read_source env edn source id ≡ done fs st
    → AreFormed env fs
read_source-AreFormed env edn source id fs st keeps e =
    subst (Holds (AreFormed env)) e
      (all-Formed env keeps edn (suc (length source)) (form_fuel source) (make_reader source id))
