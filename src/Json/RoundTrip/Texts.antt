-- ===== src/Json/RoundTrip/Texts.antt =====
-- src/runtime/Json.cpp: the parser's string loop reads each character as the writer writes it.
use proto_clojure.Base.{
  ℕ, suc, ◌+◌, ◌*◌, ◌/◌, ◌%◌, ◌<◌, ◌≡◌, refl, ap, sym, ◌∙◌, Bool, true, false, some, [], ◌∷◌, ◌++◌,
  arith, ◌==◌, drop, Bytes,
}
use proto_clojure.Json.Source.{
  Source, peek, advance, advance_on, ok, ◌>>=◌, take_run_on, take_run, end_of_input, first_or_end,
}
use proto_clojure.Json.Strings.{hex_letter, hex_escape}
use proto_clojure.Json.Texts.{
  hex_digit, hex_step, hex_digits, hex4, is_plain, simple_escape, escape_from, escape, string_stop,
  string_round, string_loop,
}
use proto_clojure.Json.{Flavor}

pub rest-advance : (s : Source) (b : ℕ) {bs : Bytes} → s.rest ≡ b ∷ bs → (advance s).rest ≡ bs
unfolding advance_on
rest-advance s b h = rw h refl

take_run-step :
    (p : ℕ → Bool) (out : Bytes) (s : Source) (b : ℕ) (bs : Bytes)
    → s.rest ≡ b ∷ bs
    → p b ≡ true
    → take_run p out s ≡ take_run p (out ++ b ∷ []) (advance s)
take_run-step p out s b bs h e =
    let step : take_run_on p out (b ∷ bs) s ≡ take_run_on p (out ++ b ∷ []) bs (advance s) =
      unfold take_run_on in rw e refl in
    ap (λ t. take_run_on p out t s) h
    ∙ step
    ∙ ap (λ t. take_run_on p (out ++ b ∷ []) t (advance s)) (sym (rest-advance s b h))

take_run-stop :
    (p : ℕ → Bool) (out : Bytes) (s : Source) (b : ℕ) (bs : Bytes)
    → s.rest ≡ b ∷ bs
    → p b ≡ false
    → take_run p out s ≡ (out, s)
take_run-stop p out s b bs h e =
    let step : take_run_on p out (b ∷ bs) s ≡ (out, s) = unfold take_run_on in rw e refl in
    ap (λ t. take_run_on p out t s) h ∙ step

-- A plain byte joins the run of the round.
pub loop-plain :
    (fuel : ℕ) (out : Bytes) (s : Source) (b : ℕ) (bs : Bytes)
    → s.rest ≡ b ∷ bs
    → is_plain b ≡ true
    → string_loop (suc fuel) out s ≡ string_loop (suc fuel) (out ++ b ∷ []) (advance s)
unfolding string_loop string_round
loop-plain fuel out s b bs h e =
    ap (λ (r : Bytes × Source). string_stop (string_loop fuel) r.0 r.1)
      (take_run-step is_plain out s b bs h e)

-- A backslash ends the run, and the escape behind it is read.
pub loop-backslash :
    (fuel : ℕ) (out : Bytes) (s : Source) (bs : Bytes)
    → s.rest ≡ b'\\' ∷ bs
    → string_loop (suc fuel) out s ≡ (escape out (advance s) >>= string_loop fuel)
unfolding string_loop string_round
loop-backslash fuel out s bs h =
    let here : peek s ≡ b'\\' = ap first_or_end h in
    let stop : string_stop (string_loop fuel) out s
        ≡ (escape out (advance s) >>= string_loop fuel) =
      unfold string_stop in rw here refl in
    ap (λ (r : Bytes × Source). string_stop (string_loop fuel) r.0 r.1)
      (take_run-stop is_plain out s b'\\' bs h refl)
    ∙ stop

-- The closing quote ends the loop.
pub loop-quote :
    (fuel : ℕ) (out : Bytes) (s : Source) (bs : Bytes)
    → s.rest ≡ b'"' ∷ bs
    → string_loop (suc fuel) out s ≡ ok out (advance s)
unfolding string_loop string_round
loop-quote fuel out s bs h =
    let here : peek s ≡ b'"' = ap first_or_end h in
    let stop : string_stop (string_loop fuel) out s ≡ ok out (advance s) =
      unfold string_stop in rw here refl in
    ap (λ (r : Bytes × Source). string_stop (string_loop fuel) r.0 r.1)
      (take_run-stop is_plain out s b'"' bs h refl)
    ∙ stop

pub loop-simple :
    (fuel : ℕ) (out : Bytes) (s : Source) (e b : ℕ) (bs : Bytes)
    → s.rest ≡ b'\\' ∷ e ∷ bs
    → simple_escape e ≡ some b
    → (e == end_of_input) ≡ false
    → string_loop (suc fuel) out s ≡ string_loop fuel (out ++ b ∷ []) (advance (advance s))
loop-simple fuel out s e b bs h f n =
    let here : peek (advance s) ≡ e = ap first_or_end (rest-advance s b'\\' h) in
    let read : escape out (advance s) ≡ ok (out ++ b ∷ []) (advance (advance s)) =
      unfold escape escape_from in rw here (rw (n, f, escape_from) refl) in
    loop-backslash fuel out s (e ∷ bs) h
    ∙ ap (λ m. m >>= string_loop fuel) read
    ∙ (unfold ◌>>=◌ in refl)

hex_digit-letter : (flavor : Flavor) (d : ℕ) → d < 16 → hex_digit (hex_letter flavor d) ≡ some d
unfolding hex_digit hex_letter
hex_digit-letter flavor d h = ground arith

hex_digits-step :
    (n v d b : ℕ) (s : Source) (bs : Bytes)
    → s.rest ≡ b ∷ bs
    → hex_digit b ≡ some d
    → hex_digits (suc n) v s ≡ hex_digits n (v * 16 + d) (advance s)
hex_digits-step n v d b s bs h e =
    let here : peek s ≡ b = ap first_or_end h in
    unfold hex_digits hex_step ◌>>=◌ in rw (here, e, hex_step) refl

pub hex4-escape :
    (flavor : Flavor) (u : ℕ) (s : Source) (bs : Bytes)
    → u < 65536
    → b'\\' ∷ b'u' ∷ s.rest ≡ hex_escape flavor u ++ bs
    → (c : Source) × (hex4 s ≡ ok u c) × (c.rest ≡ bs)
unfolding hex_escape hex_digits
hex4-escape flavor u s bs l h =
    let digit = hex_digit-letter flavor in
    let h0 : s.rest ≡ _ = ap (drop 2) h in
    let h1 = rest-advance s _ h0 in
    let h2 = rest-advance (advance s) _ h1 in
    let h3 = rest-advance (advance (advance s)) _ h2 in
    let h4 = rest-advance (advance (advance (advance s))) _ h3 in
    (
      advance (advance (advance (advance s))),
      hex_digits-step 3 0 _ _ s _ h0 (digit (u / 4096 % 16) (omega arith))
          ∙ hex_digits-step 2 _ _ _ _ _ h1 (digit (u / 256 % 16) (omega arith))
          ∙ hex_digits-step 1 _ _ _ _ _ h2 (digit (u / 16 % 16) (omega arith))
          ∙ hex_digits-step 0 _ _ _ _ _ h3 (digit (u % 16) (omega arith))
          ∙ ap (λ v. ok v (advance (advance (advance (advance s))))) (omega arith),
      h4,
    )
