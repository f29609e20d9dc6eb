-- ===== src/Actor/Tests.antt =====
-- src/runtime/ActorScheduler.cpp: the theorems on actors at a message that is sent and handled.
use proto_clojure.Base.{
  total, ℕ, zero, suc, ◌+◌, ◌*◌, ◌≤◌, ◌≡◌, refl, subst, ◌⊎◌, true, false, Option, none, some, List,
  [], ◌∷◌, length, get_elem?, pos,
}
use proto_clojure.Actor.{
  Band, high, low, Message, Thread, Scheduler, popping, finished, taking, handling, checking, step,
  push, configured_worker_count,
}
use proto_clojure.Actor.Schedule.{
  System, start, run, delay, send, Reachable, started, then_step, one,
}
use proto_clojure.Actor.Schedule.Counts.{holds, serves, queued}
use proto_clojure.Actor.Schedule.Safety.{one_turn_per_actor, no_message_left, IsStill}
use proto_clojure.Actor.Turn.{steps, batch_of, final_value, answers, turn_lem}
use proto_clojure.Actor.Workers.{configured_worker_count_bounds}

-- The handlers of the tests add their function, a number, to the value, and throw at 0.
abbrev sum_of : ℕ → List ℕ → Option ℕ
sum_of zero args = none
sum_of f [] = some f
sum_of f (v ∷ args) = some (f + v)

abbrev add_seven : Message ℕ
add_seven = record { fn = 7; args = none; promise = some 1 }

abbrev throwing : Message ℕ
throwing = record { fn = 0; args = none; promise = none }

abbrev values : ℕ → ℕ
values a = 10 * a

abbrev Run : Type 0
Run = (sys : System ℕ) × Reachable sys

-- One step of the thread `i`, where it has one.
abbrev go_on :
    (sys : System ℕ) (r : Reachable sys) (i : ℕ) (t : Thread ℕ)
    → get_elem? sys.threads i ≡ some t
    → (o : Option (Thread ℕ × Scheduler ℕ)) → step sum_of 0 t sys.shared ≡ o
    → Run
go_on sys r i t e none k = (sys, r)
go_on sys r i t e (some (t', s')) k = (_, then_step r (run sum_of 0 i e k))

abbrev run_at :
    (sys : System ℕ) (r : Reachable sys) (i : ℕ) (o : Option (Thread ℕ))
    → get_elem? sys.threads i ≡ o
    → Run
run_at sys r i none e = (sys, r)
run_at sys r i (some t) e = go_on sys r i t e (step sum_of 0 t sys.shared) refl

abbrev run_all : List ℕ → Run → Run
run_all [] s = s
run_all (i ∷ is) (sys, r) = run_all is (run_at sys r i (get_elem? sys.threads i) refl)

-- A worker, and a call of `send` that has begun.
abbrev sending : Run
sending = (_, then_step (started 1 values) (send 3 low add_seven))

-- The sender has put the actor into its ready queue, and the worker has taken it.
abbrev serving : Run
serving = run_all (0 ∷ 0 ∷ 0 ∷ 1 ∷ []) sending

-- The worker has handled the message and waits again.
abbrev settled : Run
settled = run_all (1 ∷ 1 ∷ 1 ∷ 1 ∷ 1 ∷ 1 ∷ 1 ∷ 1 ∷ []) serving

serving_threads : serving.0.threads ≡ finished ∷ taking 3 high [] ∷ []
unfolding start step
serving_threads = refl

settled_threads : settled.0.threads ≡ finished ∷ popping ∷ []
unfolding start step
settled_threads = refl

settled_value : (settled.0.shared.actors 3).value ≡ 37
unfolding start step
settled_value = refl

one_turn_per_actor_example :
    (total (serves 3) serving.0.threads ≤ 1)
    × (queued 3 serving.0.shared.ready + total (holds 3) serving.0.threads
        ≡ one (serving.0.shared.actors 3).claimed)
one_turn_per_actor_example = one_turn_per_actor serving.0 3 serving.1

settled-IsStill : IsStill settled.0
unfolding start step
settled-IsStill zero t e invoke nil =
    let same : finished ≡ t = cc in subst (λ u. step invoke nil u settled.0.shared ≡ none) same refl
settled-IsStill (suc zero) t e invoke nil =
    let same : popping ≡ t = cc in subst (λ u. step invoke nil u settled.0.shared ≡ none) same refl
settled-IsStill (suc (suc i)) t e invoke nil = cc

no_message_left_example :
    ((settled.0.shared.actors 3).claimed ≡ false)
    × (queued 3 settled.0.shared.ready ≡ 0)
    × (((settled.0.shared.actors 3).mailbox low ≡ []) ⊎ (settled.0.stranded 3 ≡ true))
unfolding start step
no_message_left_example = no_message_left settled.0 1 settled.1 refl settled-IsStill 3 low

-- The worker drops the claim, where the store stays in its buffer, and looks at the mailboxes; then a
-- message comes, and its sender loses the claim.
abbrev dropping : Run
dropping = run_all (1 ∷ 1 ∷ 1 ∷ 1 ∷ []) serving

dropping_at : get_elem? dropping.0.threads 1 ≡ some (handling 3 [])
unfolding start step
dropping_at = refl

abbrev stranding : Run
stranding = run_all (0 ∷ 0 ∷ 2 ∷ []) (
  _,
  then_step (run_all (1 ∷ 1 ∷ 1 ∷ []) (_, then_step dropping.1 (delay 1 3 dropping_at))).1
      (send 3 low add_seven),
)

-- The message is left in the mailbox of an actor that is not claimed, and the worker waits.
stranding_threads : stranding.0.threads ≡ finished ∷ finished ∷ popping ∷ []
unfolding start step
stranding_threads = refl

stranding_state :
    ((stranding.0.shared.actors 3).claimed ≡ false)
    × ((stranding.0.shared.actors 3).mailbox low ≡ add_seven ∷ [])
    × (stranding.0.stranded 3 ≡ true)
unfolding start step
stranding_state = (refl, refl, refl)

-- A scheduler in which the actor 3 has been taken with two messages waiting.
abbrev two_waiting : Scheduler ℕ
two_waiting = push 3 high throwing (push 3 low add_seven serving.0.shared)

turn_lem_example :
    (t : Scheduler ℕ) × (steps sum_of 0
        (suc (suc (suc (suc (length (batch_of sum_of 0 3 two_waiting))))))
        (taking 3 high [])
        two_waiting
      ≡ some (checking 3 high, t))
    × ((b : Band) → (t.actors 3).mailbox b ≡ [])
    × ((t.actors 3).value
        ≡ final_value sum_of 0 (two_waiting.actors 3).value (batch_of sum_of 0 3 two_waiting))
    × (t.delivered
        ≡ answers sum_of 0
            (two_waiting.actors 3).value
            (batch_of sum_of 0 3 two_waiting)
            two_waiting.delivered)
    × (t.processed ≡ two_waiting.processed + length (batch_of sum_of 0 3 two_waiting))
    × ((t.actors 3).claimed ≡ false)
turn_lem_example = turn_lem sum_of 0 3 two_waiting

-- The variable says 8, on a machine with two processors.
configured_worker_count_bounds_example :
    (1 ≤ configured_worker_count (some (pos 8)) 2) × (configured_worker_count (some (pos 8)) 2 ≤ 64)
configured_worker_count_bounds_example = configured_worker_count_bounds (some (pos 8)) 2
