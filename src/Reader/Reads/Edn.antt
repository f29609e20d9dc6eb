-- ===== src/Reader/Reads/Edn.antt =====
-- src/reader/Reader.cpp: what EDN mode reads is read alike as code, and makes no symbol.
use proto_clojure.Base.{ℕ, zero, suc, ◌≡◌, refl, subst, true, false, length, Bytes}
use proto_clojure.Reader.Forms.{Form, Forms, Environment, ReaderState, Read, done, next_token}
use proto_clojure.Reader.Reads.{
  is_close, Close, closes, is_discard, list_step, next_step, read_from_token, read_next_form,
  read_list, all_step, read_all, make_reader, form_fuel, read_source,
}
use proto_clojure.Reader.Token.{is_end, Token}
use proto_clojure.Reader.Reads.AsCode.{
  IsPlain, AsCode, AsCode-bind, Alike, drop-AsCode, edn-AsCode, AsCode-if, rest-AsCode,
}

module _ (g : ℕ) (next nextc form formc : Token → ReaderState → Read Form)
    (hn : (t : Token) → Alike g (next t) (nextc t))
    (hf : (t : Token) → Alike g (form t) (formc t)) where
  list_step-AsCode :
      (more morec : ReaderState → Read Forms) (close : Close) (what : Bytes) (opening tok : Token)
      (st : ReaderState)
      → Alike g more morec
      → IsPlain g st
      → AsCode g
          (list_step next form more close what opening tok st)
          (list_step nextc formc morec close what opening tok st)
  unfolding list_step
  list_step-AsCode more morec close what opening tok st hm p =
      AsCode-if g (is_end tok.kind) _ _ _ _ tt (
        AsCode-if g (closes close tok.kind) _ _ _ _ (refl, p)
          (AsCode-if g (is_discard tok.kind) _ _ _ _
            (drop-AsCode g (next tok st) (nextc tok st) more morec (hn tok st p) hm)
            (AsCode-if g (is_close tok.kind) _ _ _ _ tt (
              AsCode-bind g (form tok st) (formc tok st) _ _ (hf tok st p)
                (λ f. rest-AsCode g f more morec hm)))))

  next_step-AsCode :
      (macro tok : Token) (st : ReaderState)
      → IsPlain g st
      → AsCode g (next_step form macro tok st) (next_step formc macro tok st)
  unfolding next_step
  next_step-AsCode macro tok st p = AsCode-if g (is_end tok.kind) _ _ _ _ tt (hf tok st p)

  all_step-AsCode :
      (env : Environment) (more morec : ReaderState → Read Forms) (tok : Token) (st : ReaderState)
      → Alike g more morec
      → IsPlain g st
      → AsCode g
          (all_step env true next form more tok st)
          (all_step env false nextc formc morec tok st)
  unfolding all_step
  all_step-AsCode env more morec tok st hm p =
      AsCode-if g (is_end tok.kind) _ _ _ _ (refl, p)
        (AsCode-if g (is_discard tok.kind) _ _ _ _
          (drop-AsCode g (next tok st) (nextc tok st) more morec (hn tok st p) hm)
          (AsCode-bind g (form tok st) (formc tok st) _ _ (hf tok st p)
            (λ f. rest-AsCode g f more morec hm)))

token-IsPlain : (g : ℕ) (st : ReaderState) → IsPlain g st → IsPlain g (next_token st).1
unfolding next_token
token-IsPlain g st p = p

module _ (env : Environment) (g : ℕ) where
  mutual
    unfolding read_from_token

    form-AsCode :
        (fuel : ℕ) (tok : Token)
        → Alike g (read_from_token env true fuel tok) (read_from_token env false fuel tok)
    form-AsCode zero tok st p = tt
    form-AsCode (suc fuel) tok st p =
        edn-AsCode env (read_next_form env true fuel) (read_next_form env false fuel)
          (read_list env true fuel) (read_list env false fuel) g tok.kind tok st (next-AsCode fuel)
          (list-AsCode fuel) p

    next-AsCode :
        (fuel : ℕ) (macro : Token)
        → Alike g (read_next_form env true fuel macro) (read_next_form env false fuel macro)
    next-AsCode zero macro st p = tt
    next-AsCode (suc fuel) macro st p =
        AsCode-if g (is_end (next_token st).0.kind) _ _ _ _ tt
          (form-AsCode fuel (next_token st).0 (next_token st).1 (token-IsPlain g st p))

    list-AsCode :
        (fuel : ℕ) (close : Close) (what : Bytes) (opening : Token)
        → Alike g
            (read_list env true fuel close what opening)
            (read_list env false fuel close what opening)
    list-AsCode zero close what opening st p = tt
    list-AsCode (suc fuel) close what opening st p =
        list_step-AsCode g (read_next_form env true fuel) (read_next_form env false fuel)
          (read_from_token env true fuel) (read_from_token env false fuel) (next-AsCode fuel)
          (form-AsCode fuel) (read_list env true fuel close what opening)
          (read_list env false fuel close what opening) close what opening (next_token st).0
          (next_token st).1 (list-AsCode fuel close what opening) (token-IsPlain g st p)

  all-AsCode :
      (rounds fuel : ℕ) → Alike g (read_all env true rounds fuel) (read_all env false rounds fuel)
  unfolding read_all
  all-AsCode zero fuel st p = tt
  all-AsCode (suc rounds) fuel st p =
      all_step-AsCode g (read_next_form env true fuel) (read_next_form env false fuel)
        (read_from_token env true fuel) (read_from_token env false fuel) (next-AsCode fuel)
        (form-AsCode fuel) env (read_all env true rounds fuel) (read_all env false rounds fuel)
        (next_token st).0 (next_token st).1 (all-AsCode rounds fuel) (token-IsPlain g st p)

-- Where a source is read in EDN mode, it is read as code with the same forms and final state, and
-- no symbol has been generated.
pub edn_reads_as_code :
    (env : Environment) (source : Bytes) (id : ℕ) (fs : Forms) (st : ReaderState)
    → read_source env true source id ≡ done fs st
    → (read_source env false source id ≡ done fs st) × (st.gensym ≡ id)
edn_reads_as_code env source id fs st e =
    let (r, p) =
      subst (λ r. AsCode id r (read_source env false source id)) e
        (all-AsCode env id (suc (length source)) (form_fuel source) (make_reader source id)
          (refl, refl)) in
    (r, p.1)
