-- ===== src/Actor/Turn.antt =====
-- src/runtime/ActorScheduler.cpp: a turn of `workerLoop`, from the drain of the mailboxes to the
-- store that drops the claim, against a reference that folds the messages in their order.
use proto_clojure.Base.{
  ℕ, zero, suc, ◌+◌, ◌≡◌, refl, ap, ◌∙◌, false, Option, none, some, List, [], ◌∷◌, ◌++◌, arith,
  length, ==_refl,
}
use proto_clojure.Actor.{
  Band, high, medium, low, Message, Thread, taking, handling, checking, Scheduler, step, result_of,
  handle, set_mailbox, set_claimed, deliver,
}

module _ {Value : Type 0} (invoke : Value → List Value → Option Value) (nil : Value) where
  -- `n` steps of one thread.
  abbrev pub steps : ℕ → Thread Value → Scheduler Value → Option (Thread Value × Scheduler Value)
  steps zero t s = some (t, s)
  steps (suc n) t s = elim (step invoke nil t s) [ none ↦ none | some (t', s') ↦ steps n t' s' ]

  -- The value after the messages, each handler called with what the one before it returned.
  abbrev pub final_value : Value → List (Message Value) → Value
  final_value v [] = v
  final_value v (m ∷ ms) = final_value (result_of invoke nil v m) ms

  -- The promises of the messages with their results, the last one first.
  abbrev pub answers : Value → List (Message Value) → List (ℕ × Value) → List (ℕ × Value)
  answers v [] ps = ps
  answers v (m ∷ ms) ps =
      let result = result_of invoke nil v m in answers result ms (deliver m.promise result ps)

  -- How the state stands after a turn that began with `s` and had these messages.
  pub record IsServed (a : ℕ) (batch : List (Message Value)) (s t : Scheduler Value) : Type 0 where
    pub value_is : (t.actors a).value ≡ final_value (s.actors a).value batch
    pub delivered_is : t.delivered ≡ answers (s.actors a).value batch s.delivered
    pub processed_is : t.processed ≡ s.processed + length batch
    pub mailbox_is : (t.actors a).mailbox ≡ (s.actors a).mailbox
    pub released : (t.actors a).claimed ≡ false

  handled_value :
      (a : ℕ) (m : Message Value) (result : Value) (s : Scheduler Value)
      → ((handle a m result s).actors a).value ≡ result
  unfolding handle
  handled_value a m result s = rw (==_refl a) refl

  handled_mailbox :
      (a : ℕ) (m : Message Value) (result : Value) (s : Scheduler Value)
      → ((handle a m result s).actors a).mailbox ≡ (s.actors a).mailbox
  unfolding handle
  handled_mailbox a m result s = rw (==_refl a) refl

  handling_lem :
      (a : ℕ) (batch : List (Message Value)) (s : Scheduler Value)
      → (t : Scheduler Value) × (steps (suc (length batch)) (handling a batch) s
          ≡ some (checking a high, t))
        × IsServed a batch s t
  unfolding step handle
  handling_lem a [] s = (
    set_claimed a false s,
    refl,
    record {
      value_is = rw (==_refl a) refl;
      delivered_is = refl;
      processed_is = omega arith;
      mailbox_is = rw (==_refl a) refl;
      released = rw (==_refl a) refl;
    },
  )
  handling_lem a (m ∷ batch) s =
      let result = result_of invoke nil (s.actors a).value m in
      let (t, ran, served) = handling_lem a batch (handle a m result s) in
      let now = handled_value a m result s in
      (
        t,
        ran,
        record {
          value_is = served.value_is ∙ ap (λ v. final_value v batch) now;
          delivered_is =
              served.delivered_is
              ∙ ap (λ v. answers v batch (deliver m.promise result s.delivered)) now;
          processed_is = omega (arith, served.processed_is);
          mailbox_is = served.mailbox_is ∙ handled_mailbox a m result s;
          released = served.released;
        },
      )

  -- The messages of a turn: those of the high band first, each band in the order of its pushes.
  abbrev pub batch_of : ℕ → Scheduler Value → List (Message Value)
  batch_of a s =
      let mailbox = (s.actors a).mailbox in (mailbox high ++ mailbox medium) ++ mailbox low

  abbrev emptied : ℕ → Scheduler Value → Scheduler Value
  emptied a s = set_mailbox a low [] (set_mailbox a medium [] (set_mailbox a high [] s))

  taking_lem :
      (a n : ℕ) (s : Scheduler Value)
      → steps (suc (suc (suc n))) (taking a high []) s
        ≡ steps n (handling a (batch_of a s)) (emptied a s)
  unfolding step
  taking_lem a n s = rw (==_refl a) refl

  emptied_mailbox :
      (a : ℕ) (s : Scheduler Value) (b : Band) → ((emptied a s).actors a).mailbox b ≡ []
  emptied_mailbox a s high = rw (==_refl a) refl
  emptied_mailbox a s medium = rw (==_refl a) refl
  emptied_mailbox a s low = rw (==_refl a) refl

  emptied_value :
      (a : ℕ) (s : Scheduler Value) → ((emptied a s).actors a).value ≡ (s.actors a).value
  emptied_value a s = rw (==_refl a) refl

  -- A worker's turn, run without a step of another thread in between, comes to the check of the
  -- mailboxes; by then the three mailboxes of the actor are empty, the handlers of all the
  -- messages have been called by priority and then in the order of the pushes, each with the
  -- value that the one before it left, the messages are counted, their promises delivered with
  -- their results, and the claim dropped.
  pub turn_lem :
      (a : ℕ) (s : Scheduler Value)
      → (t : Scheduler Value) × (steps
            (suc (suc (suc (suc (length (batch_of a s))))))
            (taking a high [])
            s
          ≡ some (checking a high, t))
        × ((b : Band) → (t.actors a).mailbox b ≡ [])
        × ((t.actors a).value ≡ final_value (s.actors a).value (batch_of a s))
        × (t.delivered ≡ answers (s.actors a).value (batch_of a s) s.delivered)
        × (t.processed ≡ s.processed + length (batch_of a s))
        × ((t.actors a).claimed ≡ false)
  turn_lem a s =
      let batch = batch_of a s in
      let (t, ran, served) = handling_lem a batch (emptied a s) in
      (
        t,
        taking_lem a (suc (length batch)) s ∙ ran,
        λ b. ap (λ f. f b) served.mailbox_is ∙ emptied_mailbox a s b,
        served.value_is ∙ ap (λ v. final_value v batch) (emptied_value a s),
        served.delivered_is ∙ ap (λ v. answers v batch s.delivered) (emptied_value a s),
        served.processed_is,
        served.released,
      )
