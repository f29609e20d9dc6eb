-- ===== src/Actor/Schedule.antt =====
-- src/runtime/ActorScheduler.cpp: the threads of a process as a step relation. Any call of `send`
-- may begin at any time, and the threads take their steps in any order. Each access takes effect at
-- once, but the release store that drops a claim may wait in the buffer of its thread while the
-- loads behind it are done. The actors are there from the start, as `newActor` leaves them; one that
-- is created later is one that nobody sends to before.
pub mod Counts
pub mod Invariant
pub mod Steps
pub mod Safety
use proto_clojure.Base.{
  ℕ, ◌+◌, ◌≡◌, Bool, true, false, Option, none, some, List, [], ◌∷◌, ◌++◌, get_elem?, set,
  replicate, total, ltb, ◌==◌, ◌&&◌, ◌||◌, if◌then◌else◌,
}
use proto_clojure.Actor.{
  Band, high, Message, Scheduler, Thread, pushing, claiming, handling, releasing, flushing,
  checking, reclaiming, popping, new_actor, set_claimed, step,
}

abbrev pub one : Bool → ℕ
one true = 1
one false = 0

-- A thread that has dropped the claim of `a` where no other thread sees it yet.
abbrev pub releases : {Value : Type 0} → ℕ → Thread Value → ℕ
releases a (releasing c b) = one (c == a)
releases a (flushing c found) = one (c == a)
releases a _ = 0

-- Whether somebody has lost the claim of `a` to a thread that had dropped it, and nobody has won it
-- since: behind a step of the thread `t`, from what holds before it, with the count of the threads
-- that have dropped it.
abbrev pub noted : {Value : Type 0} → ℕ → Thread Value → Scheduler Value → Bool → ℕ → Bool
noted a (claiming c b) s lost r = if c == a then (s.actors c).claimed && (lost || ltb 0 r) else lost
noted a (reclaiming c) s lost r = if c == a then (s.actors c).claimed && (lost || ltb 0 r) else lost
noted a _ s lost r = lost

pub record System (Value : Type 0) : Type 0 where
  pub threads : List (Thread Value)
  pub shared : Scheduler Value
  -- For each actor: somebody has lost its claim to a thread that had dropped it, with the store still
  -- in its buffer, and nobody has won it since.
  pub stranded : ℕ → Bool

-- The workers that `ensureStarted` spawns.
unfoldable pub start : {Value : Type 0} → ℕ → (ℕ → Value) → System Value
start workers values = record {
  threads = replicate workers popping;
  shared = record {
    actors = λ a. new_actor (values a);
    ready = λ b. [];
    shutting_down = false;
    processed = 0;
    delivered = [];
  };
  stranded = λ a. false;
}

pub data Step {Value : Type 0} : System Value → System Value → Type 0 where
  -- One thread takes its next step, whatever the handlers compute; what it writes takes effect at
  -- once.
  run :
      {sys : System Value} {t t' : Thread Value} {s' : Scheduler Value}
      → (invoke : Value → List Value → Option Value) → (nil : Value) → (i : ℕ)
      → get_elem? sys.threads i ≡ some t
      → step invoke nil t sys.shared ≡ some (t', s')
      → Step sys (record {
        threads = set sys.threads i t';
        shared = s';
        stranded = λ a. noted a t sys.shared (sys.stranded a) (total (releases a) sys.threads);
      })
  -- The store that drops the claim stays in the thread's buffer.
  delay :
      {sys : System Value}
      → (i a : ℕ) → get_elem? sys.threads i ≡ some (handling a [])
      → Step sys (record sys { threads = set sys.threads i (releasing a high) })
  -- The store takes effect between two loads.
  flush :
      {sys : System Value}
      → (i a : ℕ) → (b : Band) → get_elem? sys.threads i ≡ some (releasing a b)
      → Step sys (record sys {
        threads = set sys.threads i (checking a b);
        shared = set_claimed a false sys.shared;
      })
  -- A call of `send`.
  send :
      {sys : System Value}
      → (a : ℕ) → (b : Band) → (message : Message Value)
      → Step sys (record sys { threads = pushing a b message ∷ sys.threads })
  -- `shutdown`
  shut_down :
      {sys : System Value}
      → Step sys (record sys { shared = record sys.shared { shutting_down = true } })

pub data Reachable {Value : Type 0} : System Value → Type 0 where
  started : (workers : ℕ) (values : ℕ → Value) → Reachable (start workers values)
  then_step : {sys sys' : System Value} → Reachable sys → Step sys sys' → Reachable sys'
