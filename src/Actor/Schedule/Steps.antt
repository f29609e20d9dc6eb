-- ===== src/Actor/Schedule/Steps.antt =====
-- src/runtime/ActorScheduler.cpp: one step of a thread keeps the books of the claims.
use proto_clojure.Base.{ℕ, ◌+◌, ◌≤◌, ◌==◌, refl, Bool, true, false, Option, List, [], ◌∷◌, arith}
use proto_clojure.Actor.{
  Band, high, medium, low, Thread, pushing, claiming, queueing, popping, taking, handling,
  Scheduler, releasing, flushing, checking, reclaiming, choosing, requeueing, finished, step,
}
use proto_clojure.Actor.Schedule.Counts.{holds, watches}
use proto_clojure.Actor.Schedule.{one, releases, noted}
use proto_clojure.Actor.Schedule.Invariant.{
  IsBooked, Books, recount, push-Books, enqueue-Books, claim-Books, plain-Books, pop_ready-Books,
  taking-Books, handle-Books, release-Books, owner-Books, check-Books, choose-Books, look-Books,
  flush-Books,
}

module _ {Value : Type 0} where
  -- A step keeps the books of every actor; `h`, `r` and `w` count the other threads.
  pub step-Books :
      (invoke : Value → List Value → Option Value) (nil : Value) (a : ℕ) (t : Thread Value)
      (s : Scheduler Value) (lost : Bool) (h r : ℕ) (w : Band → ℕ)
      → r ≤ h
      → IsBooked Value a s lost (holds a t + h) (releases a t + r) (λ b. watches a b t + w b)
      → Books a (noted a t s lost r) h r w (step invoke nil t s)
  unfolding step
  step-Books invoke nil a (pushing c b message) s lost h r w le books =
      push-Books a s lost h r w c b message
        (recount books (omega arith) (omega arith) (λ k. omega arith))
  step-Books invoke nil a (claiming c b) s lost h r w le books =
      claim-Books a s lost h r w c (queueing c b) finished (refl, refl) (refl, refl) le
        (recount books (omega arith) (omega arith) (λ k. omega arith))
  step-Books invoke nil a (queueing c b) s lost h r w le books =
      plain-Books a _ lost h r w finished refl refl (
        enqueue-Books a s lost h r w c b
          (recount books (omega arith) (omega arith) (λ k. omega arith)))
  step-Books invoke nil a popping s lost h r w le books =
      pop_ready-Books a s lost h r w (recount books (omega arith) (omega arith) (λ k. omega arith))
  step-Books invoke nil a (taking c b batch) s lost h r w le books =
      taking-Books a s lost h r w c b _ (recount books refl (omega arith) (λ k. omega arith))
  step-Books invoke nil a (handling c []) s lost h r w le books =
      release-Books a s lost h r w c (recount books refl (omega arith) (λ k. omega arith))
  step-Books invoke nil a (handling c (message ∷ batch)) s lost h r w le books =
      handle-Books a s lost h r w c batch message _
        (recount books refl (omega arith) (λ k. omega arith))
  step-Books invoke nil a (releasing c b) s lost h r w le books =
      look-Books a s lost h r w c b books
  step-Books invoke nil a (flushing c true) s lost h r w le books =
      flush-Books a s lost h r w c (reclaiming c) (λ k. one (c == a)) (refl, refl)
        (λ k. omega arith) (recount books refl refl (λ k. ground arith))
  step-Books invoke nil a (flushing c false) s lost h r w le books =
      flush-Books a s lost h r w c popping (λ k. 0) (refl, refl) (λ k. omega arith)
        (recount books refl refl (λ k. ground arith))
  step-Books invoke nil a (checking c b) s lost h r w le books =
      check-Books a s lost h r w c b (recount books (omega arith) (omega arith) (λ k. omega arith))
  step-Books invoke nil a (reclaiming c) s lost h r w le books =
      claim-Books a s lost h r w c (choosing c high) popping (refl, refl) (refl, refl) le
        (recount books (omega arith) (omega arith) (λ k. omega arith))
  step-Books invoke nil a (choosing c high) s lost h r w le books =
      choose-Books a s lost h r w c high _ (recount books refl (omega arith) (λ k. omega arith))
  step-Books invoke nil a (choosing c medium) s lost h r w le books =
      choose-Books a s lost h r w c medium _ (recount books refl (omega arith) (λ k. omega arith))
  step-Books invoke nil a (choosing c low) s lost h r w le books =
      owner-Books a s lost h r w c (requeueing c low) refl refl
        (recount books refl (omega arith) (λ k. omega arith))
  step-Books invoke nil a (requeueing c b) s lost h r w le books =
      plain-Books a _ lost h r w popping refl refl (
        enqueue-Books a s lost h r w c b
          (recount books (omega arith) (omega arith) (λ k. omega arith)))
  step-Books invoke nil a finished s lost h r w le books = tt
