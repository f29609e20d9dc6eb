-- ===== src/Actor.antt =====
-- src/runtime/ActorScheduler.h and ActorScheduler.cpp: the scheduler that runs the actors. A thread
-- is the point that it has reached in `send` or in `workerLoop`, one atomic access of the shared
-- state before the next. An actor is named by the number of its state in `owners_`.

pub mod Schedule
pub mod Turn
pub mod Workers
mod Tests
use proto_clojure.Base.{
  ℕ, suc, ◌+◌, ◌-◌, ◌≡◌, Bool, true, false, Option, none, some, List, [], ◌∷◌, ◌++◌, ltb, leb, ◌==◌,
  ◌&&◌, ◌||◌, if◌then◌else◌, take, ℤ, pos, negsuc,
}

-- `ActorPriority`
pub data Band : Type 0 where
  high : Band
  medium : Band
  low : Band

abbrev pub rank : Band → ℕ
rank high = 0
rank medium = 1
rank low = 2

module _ {ℓ} {A : Type ℓ} where
  -- A store of three bands, with one of them replaced.
  abbrev pub put_band : Band → A → (Band → A) → Band → A
  put_band b v f c = if rank b == rank c then v else f c

  abbrev pub put : ℕ → A → (ℕ → A) → ℕ → A
  put a v f c = if a == c then v else f c

  abbrev pub is_empty : List A → Bool
  is_empty [] = true
  is_empty (x ∷ xs) = false

-- `configuredWorkerCount`: what `atoi` reads of the variable, where it is set and not empty, and
-- `hardware_concurrency`.
abbrev pub default_workers : ℕ → ℕ
default_workers hc =
    let known = if hc == 0 then 4 else hc in
    let n = if ltb 2 known then known - 2 else 2 in if ltb 16 n then 16 else n

unfoldable pub configured_worker_count : Option ℤ → ℕ → ℕ
configured_worker_count (some (pos n)) hc = if leb 1 n && leb n 64 then n else default_workers hc
configured_worker_count _ hc = default_workers hc

module _ (Value : Type 0) where
  -- `newMessage`
  pub record Message : Type 0 where
    pub fn : Value
    pub args : Option (List Value)
    pub promise : Option ℕ

  pub record ActorState : Type 0 where
    pub mailbox : Band → List Message
    pub claimed : Bool
    pub value : Value

  pub record Scheduler : Type 0 where
    pub actors : ℕ → ActorState
    pub ready : Band → List ℕ
    pub shutting_down : Bool
    pub processed : ℕ
    -- The promises that were delivered, with their results, the last one first.
    pub delivered : List (ℕ × Value)

  pub data Thread : Type 0 where
    -- `send`: at the push, at the claim, at `enqueueReady_`.
    pushing : ℕ → Band → Message → Thread
    claiming : ℕ → Band → Thread
    queueing : ℕ → Band → Thread
    -- `workerLoop`: at `popReady_`.
    popping : Thread
    -- At `takeAll` of a band, with the batches of the bands before it.
    taking : ℕ → Band → List Message → Thread
    -- With the messages of the turn that are left; without one, at the store that drops the claim.
    handling : ℕ → List Message → Thread
    -- The store that drops the claim is in the thread's buffer, where no other thread sees it yet:
    -- `anyMailboxPending` at a band, and, with what that has found, where the store has to take effect.
    releasing : ℕ → Band → Thread
    flushing : ℕ → Bool → Thread
    -- `anyMailboxPending` at a band, the claim after it, `highestPendingBand` at a band.
    checking : ℕ → Band → Thread
    reclaiming : ℕ → Thread
    choosing : ℕ → Band → Thread
    requeueing : ℕ → Band → Thread
    finished : Thread

module _ {Value : Type 0} where
  abbrev pub new_actor : Value → ActorState Value
  new_actor v = record { mailbox = λ b. []; claimed = false; value = v }

  abbrev pub set_actor : ℕ → ActorState Value → Scheduler Value → Scheduler Value
  set_actor a state s = record s { actors = put a state s.actors }

  abbrev pub set_claimed : ℕ → Bool → Scheduler Value → Scheduler Value
  set_claimed a c s = set_actor a (record (s.actors a) { claimed = c }) s

  abbrev pub set_mailbox : ℕ → Band → List (Message Value) → Scheduler Value → Scheduler Value
  set_mailbox a b messages s =
      let state = s.actors a in
      set_actor a (record state { mailbox = put_band b messages state.mailbox }) s

  -- The push of `send`.
  unfoldable pub push : ℕ → Band → Message Value → Scheduler Value → Scheduler Value
  push a b message s = set_mailbox a b ((s.actors a).mailbox b ++ message ∷ []) s

  -- `enqueueReady_`
  unfoldable pub enqueue_ready : ℕ → Band → Scheduler Value → Scheduler Value
  enqueue_ready a b s = record s { ready = put_band b (s.ready b ++ a ∷ []) s.ready }

  -- The front of a band's ready queue, or what the next band gives.
  unfoldable pub pop_band :
      Band
      → List ℕ
      → Scheduler Value
      → Option (Thread Value × Scheduler Value)
      → Option (Thread Value × Scheduler Value)
  pop_band b [] s rest = rest
  pop_band b (a ∷ queue) s rest =
      some (taking a high [], record s { ready = put_band b queue s.ready })

  -- A pass of `popReady_` and what the worker does with the result; `none` where it waits.
  unfoldable pub pop_ready : Scheduler Value → Option (Thread Value × Scheduler Value)
  unfolding pop_band
  pop_ready s =
      let stop = if s.shutting_down then some (finished, s) else none in
      pop_band high (s.ready high) s
        (pop_band medium (s.ready medium) s (pop_band low (s.ready low) s stop))

  -- The receiver and at most 15 of the arguments: what `invoke` gets besides the function.
  abbrev pub call_arguments : Value → Option (List Value) → List Value
  call_arguments v none = v ∷ []
  call_arguments v (some args) = v ∷ take 15 args

  -- The promise has its value.
  abbrev pub is_delivered : ℕ → List (ℕ × Value) → Bool
  is_delivered p [] = false
  is_delivered p ((q, result) ∷ ps) = p == q || is_delivered p ps

  -- `deliverPromise`, a compare-and-set: the first delivery wins.
  abbrev pub deliver : Option ℕ → Value → List (ℕ × Value) → List (ℕ × Value)
  deliver none result ps = ps
  deliver (some p) result ps = if is_delivered p ps then ps else (p, result) ∷ ps

  -- The end of a message's turn, with the result of its call.
  unfoldable pub handle : ℕ → Message Value → Value → Scheduler Value → Scheduler Value
  handle a message result s =
      let s' = set_actor a (record (s.actors a) { value = result }) s in
      record s' {
        processed = suc s.processed;
        delivered = deliver message.promise result s.delivered;
      }

  abbrev pub taken : ℕ → Band → List (Message Value) → Thread Value
  taken a high batch = taking a medium batch
  taken a medium batch = taking a low batch
  taken a low batch = handling a batch

  abbrev pub checked : ℕ → Band → Bool → Thread Value
  checked a b false = reclaiming a
  checked a high true = checking a medium
  checked a medium true = checking a low
  checked a low true = popping

  -- The same with the store still in the buffer.
  abbrev pub looked : ℕ → Band → Bool → Thread Value
  looked a b false = flushing a true
  looked a high true = releasing a medium
  looked a medium true = releasing a low
  looked a low true = flushing a false

  -- The compare-and-exchange, or the lock of `popReady_`.
  abbrev pub flushed : ℕ → Bool → Thread Value
  flushed a true = reclaiming a
  flushed a false = popping

  -- The mailbox of the low band is not asked.
  abbrev pub chosen : ℕ → Band → Bool → Thread Value
  chosen a b false = requeueing a b
  chosen a high true = choosing a medium
  chosen a medium true = choosing a low
  chosen a low true = requeueing a low

  -- The compare-and-exchange of `claimed`: where the thread goes when it wins and when it loses.
  unfoldable pub claim :
      ℕ → Thread Value → Thread Value → Scheduler Value → Thread Value × Scheduler Value
  claim a won lost s = if (s.actors a).claimed then (lost, s) else (won, set_claimed a true s)

module _ {Value : Type 0} (invoke : Value → List Value → Option Value) (nil : Value) where
  -- What the handler returns, nil where it throws.
  unfoldable pub result_of : Value → Message Value → Value
  result_of v message = elim (invoke message.fn (call_arguments v message.args)) [
    | none ↦ nil
    | some result ↦ result
  ]

  -- The next atomic step of a thread; `none` where it waits or is finished.
  unfoldable pub step : Thread Value → Scheduler Value → Option (Thread Value × Scheduler Value)
  unfolding push enqueue_ready pop_ready handle claim result_of
  step (pushing a b message) s = some (claiming a b, push a b message s)
  step (claiming a b) s = some (claim a (queueing a b) finished s)
  step (queueing a b) s = some (finished, enqueue_ready a b s)
  step popping s = pop_ready s
  step (taking a b batch) s =
      some (taken a b (batch ++ (s.actors a).mailbox b), set_mailbox a b [] s)
  step (handling a (message ∷ batch)) s =
      some (handling a batch, handle a message (result_of (s.actors a).value message) s)
  step (handling a []) s = some (checking a high, set_claimed a false s)
  step (releasing a b) s = some (looked a b (is_empty ((s.actors a).mailbox b)), s)
  step (flushing a found) s = some (flushed a found, set_claimed a false s)
  step (checking a b) s = some (checked a b (is_empty ((s.actors a).mailbox b)), s)
  step (reclaiming a) s = some (claim a (choosing a high) popping s)
  step (choosing a low) s = some (requeueing a low, s)
  step (choosing a b) s = some (chosen a b (is_empty ((s.actors a).mailbox b)), s)
  step (requeueing a b) s = some (popping, enqueue_ready a b s)
  step finished s = none
