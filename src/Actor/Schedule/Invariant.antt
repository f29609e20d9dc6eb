-- ===== src/Actor/Schedule/Invariant.antt =====
-- src/runtime/ActorScheduler.cpp: each atomic access keeps the books of the claims.
use proto_clojure.Base.{
  total-append, ℕ, ◌+◌, ◌≤◌, ◌≡◌, refl, Bool, true, false, Option, none, some, List, [], ◌∷◌, ◌++◌,
  arith, leb, ltb, ◌==◌, ◌&&◌, ◌||◌, not, if◌then◌else◌, Bool-cases, inl, inr, if_cases,
}
use proto_clojure.Actor.{
  Band, high, medium, low, rank, Thread, claiming, handling, Scheduler, Message, checking, choosing,
  requeueing, finished, put_band, is_empty, push, enqueue_ready, pop_band, pop_ready, handle, claim,
  taken, checked, looked, releasing, chosen, set_claimed, set_mailbox,
}
use proto_clojure.Actor.Schedule.Counts.{holds, watches, queued}
use proto_clojure.Actor.Schedule.{one, releases}

-- The claim is not set, or dropped where only the thread that did it sees it.
abbrev pub is_open : Bool → ℕ → Bool
is_open claimed r = not claimed || ltb 0 r

-- The books of an actor: its claim is owned once where it is set, and else by nobody, and a message
-- that waits while it is not set, or dropped, has somebody on the way to it, unless a claim was lost
-- to a thread that had dropped it. `h`, `r` and `w` count the threads.
pub record IsBooked (Value : Type 0) (a : ℕ) (s : Scheduler Value) (lost : Bool) (h r : ℕ)
    (w : Band → ℕ) : Type 0 where
  pub held : queued a s.ready + h ≡ one (s.actors a).claimed
  pub watched :
      (b : Band)
      → lost ≡ false
      → is_open (s.actors a).claimed r ≡ true
      → is_empty ((s.actors a).mailbox b) ≡ false
      → 1 ≤ w b

each_band {ℓ} : (P : Band → Type ℓ) → P high → P medium → P low → (b : Band) → P b
each_band P h m l high = h
each_band P h m l medium = m
each_band P h m l low = l

pub recount :
    {Value : Type 0} {a : ℕ} {s : Scheduler Value} {lost : Bool} {h h' r r' : ℕ} {w w' : Band → ℕ}
    → IsBooked Value a s lost h r w
    → h ≡ h'
    → r ≡ r'
    → ((b : Band) → w b ≤ w' b)
    → IsBooked Value a s lost h' r' w'
recount books eh er ew = record {
  held = omega (arith, books.held, eh);
  watched = λ b seen free waits. ground (arith, books.watched b seen, er, ew b);
}

queued-append :
    (a c : ℕ) (b : Band) (ready : Band → List ℕ)
    → queued a (put_band b (ready b ++ c ∷ []) ready) ≡ queued a ready + one (c == a)
queued-append a c high ready = omega (arith, total-append (λ d. one (d == a)) (ready high) (c ∷ []))
queued-append a c medium ready =
    omega (arith, total-append (λ d. one (d == a)) (ready medium) (c ∷ []))
queued-append a c low ready = omega (arith, total-append (λ d. one (d == a)) (ready low) (c ∷ []))

queued-pop :
    (a c : ℕ) (b : Band) (queue : List ℕ) (ready : Band → List ℕ)
    → ready b ≡ c ∷ queue
    → queued a ready ≡ queued a (put_band b queue ready) + one (c == a)
queued-pop a c high queue ready e = rw e (omega arith)
queued-pop a c medium queue ready e = rw e (omega arith)
queued-pop a c low queue ready e = rw e (omega arith)

module _ {Value : Type 0} where
  -- Of the result of a step, the thread that took it counted apart.
  abbrev pub Books :
      ℕ → Bool → ℕ → ℕ → (Band → ℕ) → Option (Thread Value × Scheduler Value) → Type 0
  Books a lost h r w none = Unit
  Books a lost h r w (some (t, s)) =
      IsBooked Value a s lost (holds a t + h) (releases a t + r) (λ b. watches a b t + w b)

  module _ (a : ℕ) (s : Scheduler Value) (lost : Bool) (h r : ℕ) (w : Band → ℕ) where
    pub push-Books :
        (c : ℕ) (b : Band) (message : Message Value)
        → IsBooked Value a s lost h r w
        → Books a lost h r w (some (claiming c b, push c b message s))
    unfolding push
    push-Books c b message books = record {
      held = ground (arith, books.held);
      watched = λ k seen free waits. ground (arith, books.watched k);
    }

    pub enqueue-Books :
        (c : ℕ) (b : Band)
        → IsBooked Value a s lost (one (c == a) + h) r w
        → IsBooked Value a (enqueue_ready c b s) lost h r w
    unfolding enqueue_ready
    enqueue-Books c b books = record {
      held = ground (arith, books.held, queued-append a c b s.ready);
      watched = books.watched;
    }

    -- A claim that is won is owned by the thread that wins it; one that is lost is already owned,
    -- or noted.
    pub claim-Books :
        (c : ℕ) (won missed : Thread Value)
        → (holds a won ≡ one (c == a)) × (releases a won ≡ 0)
        → (holds a missed ≡ 0) × (releases a missed ≡ 0)
        → r ≤ h
        → IsBooked Value a s lost h r (λ b. one (c == a) + w b)
        → Books a
            (if c == a then (s.actors c).claimed && (lost || ltb 0 r) else lost)
            h
            r
            w
            (some (claim c won missed s))
    unfolding claim
    claim-Books c won missed hw hl le books = elim (Bool-cases (s.actors c).claimed) [
      | inl e ↦ rw e (record {
        held = ground (arith, books.held, hl.0);
        watched = λ k seen free waits. ground (arith, books.watched k, hl.1);
      })
      | inr e ↦ rw e (record {
        held = ground (arith, books.held, hw.0);
        watched = λ k seen free waits. ground (arith, books.watched k, books.held, hw.1, le);
      })
    ]

    pub plain-Books :
        (t : Thread Value)
        → holds a t ≡ 0
        → releases a t ≡ 0
        → IsBooked Value a s lost h r w
        → Books a lost h r w (some (t, s))
    plain-Books t e f books = record {
      held = omega (arith, e, books.held);
      watched = λ k seen free waits. ground (arith, books.watched k);
    }

    pub pop_band-Books :
        (b : Band) (queue : List ℕ) (rest : Option (Thread Value × Scheduler Value))
        → s.ready b ≡ queue
        → IsBooked Value a s lost h r w
        → Books a lost h r w rest
        → Books a lost h r w (pop_band b queue s rest)
    unfolding pop_band
    pop_band-Books b [] rest e books other = other
    pop_band-Books b (c ∷ queue) rest e books other = record {
      held = omega (arith, books.held, queued-pop a c b queue s.ready e);
      watched = λ k seen free waits. ground (arith, books.watched k);
    }

    pub pop_ready-Books : IsBooked Value a s lost h r w → Books a lost h r w (pop_ready s)
    unfolding pop_ready
    pop_ready-Books books = pop_band-Books high (s.ready high) _ refl books (
        pop_band-Books medium (s.ready medium) _ refl books (
          pop_band-Books low (s.ready low) _ refl books (
            if_cases (Books a lost h r w) s.shutting_down (plain-Books finished refl refl books)
              tt)))

    pub taking-Books :
        (c : ℕ) (b : Band) (batch : List (Message Value))
        → IsBooked Value a s lost (one (c == a) + h) r w
        → Books a lost h r w (some (taken c b batch, set_mailbox c b [] s))
    taking-Books c high batch books = record {
      held = ground (arith, books.held);
      watched = λ k seen free waits. ground (arith, books.watched k);
    }
    taking-Books c medium batch books = record {
      held = ground (arith, books.held);
      watched = λ k seen free waits. ground (arith, books.watched k);
    }
    taking-Books c low batch books = record {
      held = ground (arith, books.held);
      watched = λ k seen free waits. ground (arith, books.watched k);
    }

    pub handle-Books :
        (c : ℕ) (batch : List (Message Value)) (message : Message Value) (result : Value)
        → IsBooked Value a s lost (one (c == a) + h) r w
        → Books a lost h r w (some (handling c batch, handle c message result s))
    unfolding handle
    handle-Books c batch message result books = record {
      held = ground (arith, books.held);
      watched = λ k seen free waits. ground (arith, books.watched k);
    }

    pub release-Books :
        (c : ℕ)
        → IsBooked Value a s lost (one (c == a) + h) r w
        → Books a lost h r w (some (checking c high, set_claimed c false s))
    release-Books c books = record {
      held = ground (arith, books.held);
      watched = λ k seen free waits. ground (arith, books.watched k);
    }

    pub owner-Books :
        (c : ℕ) (t : Thread Value)
        → holds a t ≡ one (c == a)
        → releases a t ≡ 0
        → IsBooked Value a s lost (one (c == a) + h) r w
        → Books a lost h r w (some (t, s))
    owner-Books c t e f books = record {
      held = omega (arith, e, books.held);
      watched = λ k seen free waits. ground (arith, books.watched k);
    }

    pub check-Books :
        (c : ℕ) (b : Band)
        → IsBooked Value a s lost h r (λ k. one (c == a && leb (rank b) (rank k)) + w k)
        → Books a lost h r w (some (checked c b (is_empty ((s.actors c).mailbox b)), s))
    check-Books c b books = elim (Bool-cases (is_empty ((s.actors c).mailbox b))) [
      | inl e ↦ rw e (go b e books)
      | inr e ↦ rw e (record {
        held = omega (arith, books.held);
        watched = λ k seen free waits. ground (arith, books.watched k);
      })
    ]
      where
        go :
            (b : Band)
            → is_empty ((s.actors c).mailbox b) ≡ true
            → IsBooked Value a s lost h r (λ k. one (c == a && leb (rank b) (rank k)) + w k)
            → Books a lost h r w (some (checked c b true, s))
        go high e books = record {
          held = omega (arith, books.held);
          watched =
              each_band
                (λ k.
                  lost ≡ false
                  → is_open (s.actors a).claimed (0 + r) ≡ true
                  → is_empty ((s.actors a).mailbox k) ≡ false
                  → 1 ≤ watches a k (checked {Value = Value} c high true) + w k)
                (λ seen free waits. ground (arith, books.watched high))
                (λ seen free waits. ground (arith, books.watched medium))
                (λ seen free waits. ground (arith, books.watched low));
        }
        go medium e books = record {
          held = omega (arith, books.held);
          watched =
              each_band
                (λ k.
                  lost ≡ false
                  → is_open (s.actors a).claimed (0 + r) ≡ true
                  → is_empty ((s.actors a).mailbox k) ≡ false
                  → 1 ≤ watches a k (checked {Value = Value} c medium true) + w k)
                (λ seen free waits. ground (arith, books.watched high))
                (λ seen free waits. ground (arith, books.watched medium))
                (λ seen free waits. ground (arith, books.watched low));
        }
        go low e books = record {
          held = omega (arith, books.held);
          watched =
              each_band
                (λ k.
                  lost ≡ false
                  → is_open (s.actors a).claimed (0 + r) ≡ true
                  → is_empty ((s.actors a).mailbox k) ≡ false
                  → 1 ≤ watches a k (checked {Value = Value} c low true) + w k)
                (λ seen free waits. ground (arith, books.watched high))
                (λ seen free waits. ground (arith, books.watched medium))
                (λ seen free waits. ground (arith, books.watched low));
        }

    pub choose-Books :
        (c : ℕ) (b : Band) (o : Bool)
        → IsBooked Value a s lost (one (c == a) + h) r w
        → Books a lost h r w (some (chosen c b o, s))
    choose-Books c high true books = owner-Books c (choosing c medium) refl refl books
    choose-Books c medium true books = owner-Books c (choosing c low) refl refl books
    choose-Books c low true books = owner-Books c (requeueing c low) refl refl books
    choose-Books c b false books = owner-Books c (requeueing c b) refl refl books

    -- The store that drops the claim goes into the buffer.
    pub delay-Books :
        (c : ℕ)
        → IsBooked Value a s lost (one (c == a) + h) r w
        → Books a lost h r w (some (releasing c high, s))
    delay-Books c books = record {
      held = books.held;
      watched =
          each_band
            (λ k.
              lost ≡ false
              → is_open (s.actors a).claimed (one (c == a) + r) ≡ true
              → is_empty ((s.actors a).mailbox k) ≡ false
              → 1 ≤ one (c == a && leb 0 (rank k)) + w k)
            (λ seen free waits. ground (arith, books.watched high))
            (λ seen free waits. ground (arith, books.watched medium))
            (λ seen free waits. ground (arith, books.watched low));
    }

    -- It takes effect.
    pub flush-Books :
        (c : ℕ) (t : Thread Value) (v : Band → ℕ)
        → (holds a t ≡ 0) × (releases a t ≡ 0)
        → ((k : Band) → v k ≤ watches a k t)
        → IsBooked Value a s lost (one (c == a) + h) (one (c == a) + r) (λ k. v k + w k)
        → Books a lost h r w (some (t, set_claimed c false s))
    flush-Books c t v (e, f) more books = record {
      held = ground (arith, books.held, e);
      watched = λ k seen free waits. ground (arith, books.watched k, more k, f);
    }

    look_on-Books :
        (c : ℕ) (b : Band) (o : Bool)
        → is_empty ((s.actors c).mailbox b) ≡ o
        → IsBooked Value a s lost
            (one (c == a) + h)
            (one (c == a) + r)
            (λ k. one (c == a && leb (rank b) (rank k)) + w k)
        → Books a lost h r w (some (looked c b o, s))
    look_on-Books c b false e books = record {
      held = books.held;
      watched = λ k seen free waits. ground (arith, books.watched k);
    }
    look_on-Books c high true e books = record {
      held = books.held;
      watched =
          each_band
            (λ k.
              lost ≡ false
              → is_open (s.actors a).claimed (one (c == a) + r) ≡ true
              → is_empty ((s.actors a).mailbox k) ≡ false
              → 1 ≤ watches a k (looked {Value = Value} c high true) + w k)
            (λ seen free waits. ground (arith, books.watched high))
            (λ seen free waits. ground (arith, books.watched medium))
            (λ seen free waits. ground (arith, books.watched low));
    }
    look_on-Books c medium true e books = record {
      held = books.held;
      watched =
          each_band
            (λ k.
              lost ≡ false
              → is_open (s.actors a).claimed (one (c == a) + r) ≡ true
              → is_empty ((s.actors a).mailbox k) ≡ false
              → 1 ≤ watches a k (looked {Value = Value} c medium true) + w k)
            (λ seen free waits. ground (arith, books.watched high))
            (λ seen free waits. ground (arith, books.watched medium))
            (λ seen free waits. ground (arith, books.watched low));
    }
    look_on-Books c low true e books = record {
      held = books.held;
      watched =
          each_band
            (λ k.
              lost ≡ false
              → is_open (s.actors a).claimed (one (c == a) + r) ≡ true
              → is_empty ((s.actors a).mailbox k) ≡ false
              → 1 ≤ watches a k (looked {Value = Value} c low true) + w k)
            (λ seen free waits. ground (arith, books.watched high))
            (λ seen free waits. ground (arith, books.watched medium))
            (λ seen free waits. ground (arith, books.watched low));
    }

    -- A mailbox is found empty, or a message in it, before it does.
    pub look-Books :
        (c : ℕ) (b : Band)
        → IsBooked Value a s lost
            (one (c == a) + h)
            (one (c == a) + r)
            (λ k. one (c == a && leb (rank b) (rank k)) + w k)
        → Books a lost h r w (some (looked c b (is_empty ((s.actors c).mailbox b)), s))
    look-Books c b books = look_on-Books c b _ refl books
