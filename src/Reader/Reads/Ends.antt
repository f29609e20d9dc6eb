-- ===== src/Reader/Reads/Ends.antt =====
-- src/reader/Reader.cpp: reading ends on every source, with forms or with a read error.
use proto_clojure.Base.{
  ℕ, zero, suc, ◌*◌, ◌<◌, ◌≡◌, ◌≢◌, refl, subst, Bool, false, arith, if_cases, if_split, length,
  Bytes,
}
use proto_clojure.Reader.Forms.{
  Form, Forms, Environment, ReaderState, Read, out_of_fuel, next_token,
}
use proto_clojure.Reader.Lexer.{next}
use proto_clojure.Reader.Reads.{
  edn_error, Close, is_discard, read_from_token, read_next_form, read_list, all_step, read_all,
  make_reader, form_fuel, read_source,
}
use proto_clojure.Reader.Token.{is_end, Token}
use proto_clojure.Reader.Reads.Within.{
  IsWithin, Ends, Ends-bind, Ends-more, token-IsWithin, EndsOn, then_drop-Ends, form_of-Ends,
  checked-Ends, next_step-Ends, rest-Ends, list_step-Ends, end_of_source, behind-IsWithin,
}

module _ (env : Environment) (edn : Bool) where
  mutual
    unfolding read_from_token

    form-Ends :
        (fuel n : ℕ) (tok : Token)
        → suc (2 * n) < fuel
        → EndsOn n (read_from_token env edn fuel tok)
    form-Ends zero n tok h st w = elim h [ ]
    form-Ends (suc fuel) n tok h st w = checked-Ends edn (edn_error tok.kind tok.text) tok n _ (
        form_of-Ends env (read_next_form env edn fuel) (read_list env edn fuel) n tok.kind tok st
          (λ t. next-Ends fuel n t (omega arith))
          (λ c what t. list-Ends fuel n c what t (omega arith)) w)

    next-Ends :
        (fuel n : ℕ) (macro : Token) → 2 * n < fuel → EndsOn n (read_next_form env edn fuel macro)
    next-Ends zero n macro h st w = elim h [ ]
    next-Ends (suc fuel) zero macro h st w =
        next_step-Ends (read_from_token env edn fuel) macro (next_token st).0 zero (next_token st).1
          (λ e. cc (e, end_of_source st w))
    next-Ends (suc fuel) (suc n) macro h st w =
        next_step-Ends (read_from_token env edn fuel) macro (next_token st).0 (suc n)
          (next_token st).1
          (λ e. Ends-more _ n (suc n) (omega arith) (
            form-Ends fuel n (next_token st).0 (omega arith) (next_token st).1
              (behind-IsWithin n st w e)))

    list-Ends :
        (fuel n : ℕ) (close : Close) (what : Bytes) (opening : Token)
        → 2 * n < fuel
        → EndsOn n (read_list env edn fuel close what opening)
    list-Ends zero n close what opening h st w = elim h [ ]
    list-Ends (suc fuel) zero close what opening h st w = rw (end_of_source st w) tt
    list-Ends (suc fuel) (suc n) close what opening h st w =
        list_step-Ends (read_next_form env edn fuel) (read_from_token env edn fuel)
          (read_list env edn fuel close what opening) close what opening (next_token st).0 n
          (next_token st).1 (token-IsWithin (suc n) st w) (behind-IsWithin n st w)
          (λ t. next-Ends fuel n t (omega arith)) (λ t. form-Ends fuel n t (omega arith))
          (list-Ends fuel n close what opening (omega arith))

  all_step-Ends :
      (next form : Token → ReaderState → Read Form) (more : ReaderState → Read Forms) (tok : Token)
      (n : ℕ) (st : ReaderState)
      → IsWithin (suc n) st
      → (is_end tok.kind ≡ false → IsWithin n st)
      → ((t : Token) → EndsOn n (next t))
      → ((t : Token) → EndsOn n (form t))
      → EndsOn n more
      → Ends (suc n) (all_step env edn next form more tok st)
  unfolding all_step
  all_step-Ends next form more tok n st w fewer hn hf hm =
      let P = λ (r : Read Forms). Ends (suc n) r in
      let up = λ (r : Read Forms) (h : Ends n r). Ends-more r n (suc n) (omega arith) h in
      if_split P (is_end tok.kind) (λ _. w)
        (λ e.
          if_cases P (is_discard tok.kind)
            (up _ (then_drop-Ends n (next tok st) more (hn tok st (fewer e)) hm))
            (up _ (
              Ends-bind (form tok st) _ n n (hf tok st (fewer e))
                (λ f after v. rest-Ends n f (more after) (hm after v)))))

  all-Ends :
      (rounds n fuel : ℕ)
      → n < rounds
      → suc (2 * n) < fuel
      → EndsOn n (read_all env edn rounds fuel)
  unfolding read_all
  all-Ends zero n fuel h f st w = elim h [ ]
  all-Ends (suc rounds) zero fuel h f st w = rw (end_of_source st w) (token-IsWithin 0 st w)
  all-Ends (suc rounds) (suc n) fuel h f st w =
      all_step-Ends (read_next_form env edn fuel) (read_from_token env edn fuel)
        (read_all env edn rounds fuel) (next_token st).0 n (next_token st).1
        (token-IsWithin (suc n) st w) (behind-IsWithin n st w)
        (λ t. next-Ends fuel n t (omega arith)) (λ t. form-Ends fuel n t (omega arith))
        (all-Ends rounds n fuel (omega arith) (omega arith))

  -- Reading a whole source ends, as code or in EDN mode: with its forms, or with a read error.
  pub read_source_ends : (source : Bytes) (id : ℕ) → read_source env edn source id ≢ out_of_fuel
  read_source_ends source id e = subst (Ends (length source)) e (
      all-Ends (suc (length source)) (length source) (form_fuel source) (omega arith) (omega arith)
        (make_reader source id) (refl, omega arith))
