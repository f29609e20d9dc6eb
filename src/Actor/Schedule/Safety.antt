-- ===== src/Actor/Schedule/Safety.antt =====
-- src/runtime/ActorScheduler.cpp: what holds whenever the threads are run: the single-method
-- invariant, and what is left where nothing can go on.
use proto_clojure.Base.{
  total, total-elem, total-set, total-replicate, total_zero, ℕ, ◌+◌, ◌-◌, ◌≤◌, ◌≡◌, refl, subst,
  ◌⊎◌, inl, inr, Bool, true, false, Bool-cases, Option, none, some, List, [], ◌∷◌, arith, get_elem?,
  set, ap, ltb, ◌==◌, ◌&&◌, ◌||◌, if◌then◌else◌,
}
use proto_clojure.Actor.{
  Band, high, medium, low, Thread, pushing, claiming, queueing, popping, taking, handling,
  releasing, flushing, checking, reclaiming, choosing, requeueing, finished, Scheduler, set_claimed,
  step, pop_ready, pop_band,
}
use proto_clojure.Actor.Schedule.{
  System, start, Step, run, delay, flush, send, shut_down, Reachable, started, then_step, one,
  releases, noted,
}
use proto_clojure.Actor.Schedule.Counts.{
  holds, serves, watches, total-serves-le, total-releases-le, queued,
}
use proto_clojure.Actor.Schedule.Invariant.{IsBooked, Books, recount, delay-Books, flush-Books}
use proto_clojure.Actor.Schedule.Steps.{step-Books}

module _ {Value : Type 0} where
  abbrev Kept : ℕ → System Value → Type 0
  Kept a sys =
      IsBooked Value a sys.shared (sys.stranded a) (total (holds a) sys.threads)
        (total (releases a) sys.threads) (λ b. total (watches a b) sys.threads)

  -- The threads other than one of them that have dropped a claim own it.
  others_le :
      (a i : ℕ) (t : Thread Value) (ts : List (Thread Value))
      → get_elem? ts i ≡ some t
      → total (releases a) ts - releases a t ≤ total (holds a) ts - holds a t
  others_le a i t ts at = omega (
    arith,
    total-releases-le a (set ts i finished),
    total-set (releases a) ts i t finished at,
    total-set (holds a) ts i t finished at,
  )

  -- A thread that is replaced, where its step keeps the books.
  replaced-Kept :
      (a : ℕ) (lost lost' : Bool) (ts : List (Thread Value)) (s s' : Scheduler Value) (i : ℕ)
      (t t' : Thread Value)
      → get_elem? ts i ≡ some t
      → IsBooked Value a s lost
          (total (holds a) ts)
          (total (releases a) ts)
          (λ b. total (watches a b) ts)
      → ((h r : ℕ) (w : Band → ℕ)
          → r ≤ h
          → (total (releases a) ts ≡ releases a t + r)
          → IsBooked Value a s lost (holds a t + h) (releases a t + r) (λ b. watches a b t + w b)
          → Books a lost' h r w (some (t', s')))
      → IsBooked Value a s' lost'
          (total (holds a) (set ts i t'))
          (total (releases a) (set ts i t'))
          (λ b. total (watches a b) (set ts i t'))
  replaced-Kept a lost lost' ts s s' i t t' at kept next =
      let least = λ (f : Thread Value → ℕ). total-elem f ts i t at in
      let sum = λ (f : Thread Value → ℕ). total-set f ts i t t' at in
      let others = λ (f : Thread Value → ℕ). total f ts - f t in
      let after =
        next (others (holds a)) (others (releases a)) (λ b. others (watches a b))
          (others_le a i t ts at) (omega (arith, least (releases a)))
          (recount kept (omega (arith, least (holds a))) (omega (arith, least (releases a)))
            (λ k. omega (arith, least (watches a k)))) in
      recount after (omega (arith, sum (holds a), least (holds a)))
        (omega (arith, sum (releases a), least (releases a)))
        (λ k. omega (arith, sum (watches a k), least (watches a k)))

  -- A thread that has dropped a claim is not at a claim.
  noted_others :
      (a : ℕ) (t : Thread Value) (s : Scheduler Value) (lost : Bool) (r n : ℕ)
      → n ≡ releases a t + r
      → noted a t s lost r ≡ noted a t s lost n
  noted_others a (claiming c b) s lost r n e =
      ap (λ k. if c == a then (s.actors c).claimed && (lost || ltb 0 k) else lost)
        (omega (arith, e))
  noted_others a (reclaiming c) s lost r n e =
      ap (λ k. if c == a then (s.actors c).claimed && (lost || ltb 0 k) else lost)
        (omega (arith, e))
  noted_others a _ s lost r n e = refl

  Step-Kept : (a : ℕ) {sys sys' : System Value} → Step sys sys' → Kept a sys → Kept a sys'
  Step-Kept a (send c b message) kept = recount kept (omega arith) (omega arith) (λ k. omega arith)
  Step-Kept a shut_down kept = record { held = kept.held; watched = kept.watched }
  Step-Kept a {sys = sys} (delay i c at) kept =
      replaced-Kept a (sys.stranded a) (sys.stranded a) sys.threads sys.shared sys.shared i
        (handling c []) (releasing c high) at kept
        (λ h r w le e books.
          delay-Books a sys.shared (sys.stranded a) h r w c
            (recount books refl (omega arith) (λ k. omega arith)))
  Step-Kept a {sys = sys} (flush i c b at) kept =
      replaced-Kept a (sys.stranded a) (sys.stranded a) sys.threads sys.shared
        (set_claimed c false sys.shared) i (releasing c b) (checking c b) at kept
        (λ h r w le e books.
          flush-Books a sys.shared (sys.stranded a) h r w c (checking c b)
            (λ k. watches {Value = Value} a k (checking c b)) (refl, refl) (λ k. omega arith) books)
  Step-Kept a {sys = sys} (run {t = t} {t' = t'} {s' = s'} invoke nil i at e) kept =
      let lost' = noted a t sys.shared (sys.stranded a) (total (releases a) sys.threads) in
      replaced-Kept a (sys.stranded a) lost' sys.threads sys.shared s' i t t' at kept
        (λ h r w le sum books. subst (Books a lost' h r w) e (
          subst (λ lost. Books a lost h r w (step invoke nil t sys.shared))
            (noted_others a t sys.shared (sys.stranded a) r _ sum)
            (step-Books invoke nil a t sys.shared (sys.stranded a) h r w le books)))

  pub Reachable-Kept : (a : ℕ) {sys : System Value} → Reachable sys → Kept a sys
  unfolding start
  Reachable-Kept a (started workers values) = record {
    held = omega (arith, total-replicate (holds {Value = Value} a) workers popping refl);
    watched = λ b seen free waits. ground arith;
  }
  Reachable-Kept a (then_step r s) = Step-Kept a s (Reachable-Kept a r)

  -- In every reachable state at most one thread is in a turn of an actor, and the entries of the
  -- actor in the ready queues, together with the threads that own its claim, are one where
  -- `claimed` is set and none where it is not.
  pub one_turn_per_actor :
      (sys : System Value) (a : ℕ)
      → Reachable sys
      → (total (serves a) sys.threads ≤ 1)
        × (queued a sys.shared.ready + total (holds a) sys.threads
            ≡ one (sys.shared.actors a).claimed)
  one_turn_per_actor sys a r =
      let kept = Reachable-Kept a r in
      (ground (arith, total-serves-le a sys.threads, kept.held), kept.held)

  -- No thread can take a step: each is finished or waits in `popReady_`.
  abbrev pub IsStill : System Value → Type 0
  IsStill sys =
      (i : ℕ) (t : Thread Value)
      → get_elem? sys.threads i ≡ some t
      → (invoke : Value → List Value → Option Value) (nil : Value)
      → step invoke nil t sys.shared ≡ none

  still_thread :
      (a : ℕ) (b : Band) (t : Thread Value) (s : Scheduler Value)
      → (invoke : Value → List Value → Option Value) → (nil : Value) → step invoke nil t s ≡ none
      → (holds a t ≡ 0) × (watches a b t ≡ 0)
  unfolding step
  still_thread a b popping s f v h = (refl, refl)
  still_thread a b finished s f v h = (refl, refl)
  still_thread a b (choosing c high) s f v h = ground arith
  still_thread a b (choosing c medium) s f v h = ground arith
  still_thread a b (choosing c low) s f v h = ground arith
  still_thread a b (handling c []) s f v h = ground arith
  still_thread a b (handling c (m ∷ ms)) s f v h = ground arith
  still_thread a b (pushing c k m) s f v h = ground arith
  still_thread a b (claiming c k) s f v h = ground arith
  still_thread a b (queueing c k) s f v h = ground arith
  still_thread a b (taking c k m) s f v h = ground arith
  still_thread a b (releasing c k) s f v h = ground arith
  still_thread a b (flushing c k) s f v h = ground arith
  still_thread a b (checking c k) s f v h = ground arith
  still_thread a b (reclaiming c) s f v h = ground arith
  still_thread a b (requeueing c k) s f v h = ground arith

  pop_ready-none : (s : Scheduler Value) → pop_ready s ≡ none → (b : Band) → s.ready b ≡ []
  unfolding pop_ready pop_band
  pop_ready-none s e high = ground arith
  pop_ready-none s e medium = ground arith
  pop_ready-none s e low = ground arith

  -- In a reachable state in which no thread can take a step and one waits in `popReady_`, no
  -- actor is claimed or stands in a ready queue, and a mailbox is empty unless the claim of its
  -- actor was lost to a thread whose store that drops it was still in its buffer, and has not
  -- been won since.
  pub no_message_left :
      (sys : System Value) (i : ℕ)
      → Reachable sys
      → get_elem? sys.threads i ≡ some popping
      → IsStill sys
      → (a : ℕ) (b : Band)
      → ((sys.shared.actors a).claimed ≡ false)
        × (queued a sys.shared.ready ≡ 0)
        × (((sys.shared.actors a).mailbox b ≡ []) ⊎ (sys.stranded a ≡ true))
  unfolding step
  no_message_left sys i r at still a b =
      let v = (sys.shared.actors a).value in
      let kept = Reachable-Kept a r in
      let ready = pop_ready-none sys.shared (still i popping at (λ f x. none) v) in
      let quiet = λ (j : ℕ) (t : Thread Value) (e : get_elem? sys.threads j ≡ some t).
        still_thread a b t sys.shared (λ f x. none) v (still j t e (λ f x. none) v) in
      let no_holder = total_zero (holds a) sys.threads (λ j t e. (quiet j t e).0) in
      let no_watch = total_zero (watches a b) sys.threads (λ j t e. (quiet j t e).1) in
      let unqueued : queued a sys.shared.ready ≡ 0 =
        ground (arith, ready high, ready medium, ready low) in
      let unclaimed : (sys.shared.actors a).claimed ≡ false =
        ground (arith, kept.held, no_holder, unqueued) in
      (
        unclaimed,
        unqueued,
        elim (Bool-cases (sys.stranded a)) [
          | inl e ↦ inr e
          | inr e ↦ inl (ground (arith, kept.watched b e, unclaimed, no_watch))
        ],
      )
