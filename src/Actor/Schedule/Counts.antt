-- ===== src/Actor/Schedule/Counts.antt =====
-- src/runtime/ActorScheduler.cpp: how many threads hold an actor's claim, and how many are on the
-- way to look at its mailboxes.
use proto_clojure.Base.{
  total, ℕ, ◌+◌, ◌≤◌, Bool, true, false, List, [], ◌∷◌, arith, leb, ◌==◌, ◌&&◌,
}
use proto_clojure.Actor.Schedule.{one, releases}
use proto_clojure.Actor.{
  Band, high, medium, low, rank, Thread, claiming, queueing, popping, taking, handling, releasing,
  flushing, checking, reclaiming, choosing, requeueing, finished,
}

-- A thread that owns the claim of `a`: between winning it and the entry of the ready queue, or in a
-- turn.
abbrev pub holds : {Value : Type 0} → ℕ → Thread Value → ℕ
holds a (queueing c b) = one (c == a)
holds a (taking c b batch) = one (c == a)
holds a (handling c batch) = one (c == a)
holds a (releasing c b) = one (c == a)
holds a (flushing c found) = one (c == a)
holds a (choosing c b) = one (c == a)
holds a (requeueing c b) = one (c == a)
holds a _ = 0

-- A thread that is in a turn of `a`: a worker that runs its handlers.
abbrev pub serves : {Value : Type 0} → ℕ → Thread Value → ℕ
serves a (taking c b batch) = one (c == a)
serves a (handling c batch) = one (c == a)
serves a _ = 0

-- A thread that is still to look at the mailbox `b` of `a`, or to claim `a`.
abbrev pub watches : {Value : Type 0} → ℕ → Band → Thread Value → ℕ
watches a b (claiming c k) = one (c == a)
watches a b (checking c k) = one (c == a && leb (rank k) (rank b))
watches a b (releasing c k) = one (c == a && leb (rank k) (rank b))
watches a b (flushing c found) = one (c == a && found)
watches a b (reclaiming c) = one (c == a)
watches a b _ = 0

-- A worker that waits in `popReady_`, or a thread that has returned.
abbrev pub is_at_rest : {Value : Type 0} → Thread Value → Bool
is_at_rest popping = true
is_at_rest finished = true
is_at_rest _ = false

abbrev pub occurrences : ℕ → List ℕ → ℕ
occurrences a = total (λ c. one (c == a))

-- The entries of `a` in the three ready queues.
abbrev pub queued : ℕ → (Band → List ℕ) → ℕ
queued a ready =
    occurrences a (ready high) + (occurrences a (ready medium) + occurrences a (ready low))

serves_le_holds : {Value : Type 0} (a : ℕ) (t : Thread Value) → serves a t ≤ holds a t
serves_le_holds a (taking c b batch) = omega arith
serves_le_holds a (handling c batch) = omega arith
serves_le_holds a _ = omega arith

pub total-serves-le :
    {Value : Type 0} (a : ℕ) (ts : List (Thread Value)) → total (serves a) ts ≤ total (holds a) ts
total-serves-le a [] = omega arith
total-serves-le a (t ∷ ts) = omega (arith, total-serves-le a ts, serves_le_holds a t)

releases_le_holds : {Value : Type 0} (a : ℕ) (t : Thread Value) → releases a t ≤ holds a t
releases_le_holds a (releasing c b) = omega arith
releases_le_holds a (flushing c found) = omega arith
releases_le_holds a _ = omega arith

pub total-releases-le :
    {Value : Type 0} (a : ℕ) (ts : List (Thread Value)) → total (releases a) ts ≤ total (holds a) ts
total-releases-le a [] = omega arith
total-releases-le a (t ∷ ts) = omega (arith, total-releases-le a ts, releases_le_holds a t)
