-- ===== src/Bytecode/MaxStack/Bound.antt =====
-- src/runtime/BytecodeModule.cpp: the answer of `computeMaxStack` bounds every depth that the flow
-- reaches.
use proto_clojure.Bytecode.Opcodes.{Op, ops, op_of, op_nop, instr_op, instr_operand}
use proto_clojure.Base.{
  get_elem?, replicate, length-replicate, ℕ, zero, suc, ◌≤◌, ◌<◌, ◌≡◌, ◌≢◌, refl, ◌∙◌, Option, none,
  some, inl, inr, ◌⊎◌, List, [], ◌∷◌, arith, Option-cases, length, get_or,
}
use proto_clojure.Bytecode.MaxStack.{
  Transfer, transfer, transfer_at, Flow, Outcome, running, unknown, follow, visit, continue_flow,
  flow_loop, flow_start, compute_max_stack,
}
use proto_clojure.Bytecode.MaxStack.Reach.{Covered, reach-Grows, reach-Covered}
use proto_clojure.Bytecode.MaxStack.Reaches.{
  Reaches, entry, jump, next, LeTransfer, LeJump, LeAfter, transfer_at_mono,
}
use proto_clojure.Bytecode.Module.{Module}
use proto_clojure.Bytecode.Module.Laws.{IsModule, get_or-op}
use proto_clojure.Bytecode.MaxStack.Inv.{IsDone, Inv, visit-Inv}

jump-le :
    (o p : Option (ℕ × Option ℕ)) {j x : ℕ}
    → LeJump o p
    → o ≡ some (j, some x)
    → (y : ℕ) × (p ≡ some (j, some y)) × (x ≤ y)
jump-le none p h e = cc
jump-le (some (i, a)) none h e = absurd h
jump-le (some (i, none)) (some (k, b)) h e = cc
jump-le (some (i, some a)) (some (k, none)) h e = absurd h.1
jump-le (some (i, some a)) (some (k, some b)) h e = (b, cc, ground arith)

after-le :
    (o p : Option (Option ℕ)) {x : ℕ}
    → LeAfter o p
    → o ≡ some (some x)
    → (y : ℕ) × (p ≡ some (some y)) × (x ≤ y)
after-le none p h e = cc
after-le (some a) none h e = absurd h
after-le (some none) (some b) h e = cc
after-le (some (some a)) (some none) h e = absurd h
after-le (some (some a)) (some (some b)) h e = (b, refl, ground arith)

Covered-le : (s : Flow) (j : ℕ) {x y : ℕ} → x ≤ y → Covered s j y → Covered s j x
Covered-le s j h (e, is, le) = (e, is, omega arith)

module _ (m : Module) (s : Flow) (inv : Inv m s) (ended : s.work ≡ []) where
  seen-IsDone : (i e : ℕ) → get_or s.depth i none ≡ some e → IsDone m s i e
  seen-IsDone i e is = elim (inv.done i e is) [ inl p ↦ cc (rw ended at p) | inr q ↦ q ]

  le_effect :
      (i d e : ℕ) {t u : Transfer}
      → d ≤ e
      → transfer_at m i d ≡ some t
      → transfer_at m i e ≡ some u
      → LeTransfer (some t) (some u)
  le_effect i d e h p q = rw (p, q) at (transfer_at_mono m i d e h)

  -- Where the work list is empty, every flow is covered.
  Reaches-Covered : {i d : ℕ} → Reaches m i d → Covered s i d
  Reaches-Covered (entry i0 d0 l) = rw (i0, d0) (inv.origin (rw i0 at l))
  Reaches-Covered (jump {i} {d} r k j l) =
      let (e, is, le) = Reaches-Covered r in
      let q = seen-IsDone i e is in
      let (y, to, up) = jump-le _ _ (le_effect i d e le k q.known).0 j in
      Covered-le s _ up (q.jumped _ y to l)
  Reaches-Covered (next {i} {d} r k a j l) =
      let (e, is, le) = Reaches-Covered r in
      let q = seen-IsDone i e is in
      let (y, to, up) = after-le _ _ (le_effect i d e le k q.known).1 a in
      rw j (Covered-le s _ up ((q.fallen y to).1 (rw j at l)))

  -- The deepest point bounds the depth at every instruction and behind it.
  Reaches-deepest :
      {i d : ℕ}
      → Reaches m i d
      → (d ≤ s.deepest)
        × ((t : Transfer) (x : ℕ)
            → transfer_at m i d ≡ some t
            → t.after ≡ some (some x)
            → x ≤ s.deepest)
  Reaches-deepest {i} {d} r =
      let (e, is, le) = Reaches-Covered r in
      let q = seen-IsDone i e is in
      (
        omega (arith, q.deep),
        λ t x k a.
            let (y, to, up) = after-le _ _ (le_effect i d e le k q.known).1 a in
            omega (arith, (q.fallen y to).0),
      )

get_elem?-ne-none : {A : Type 0} (xs : List A) (i : ℕ) → i < length xs → get_elem? xs i ≢ none
get_elem?-ne-none [] i h = elim h [ ]
get_elem?-ne-none (x ∷ xs) zero h = cc
get_elem?-ne-none (x ∷ xs) (suc i) h = get_elem?-ne-none xs i (omega arith)

op_of-ne-none : (b : ℕ) → b < 41 → op_of b ≢ none
unfolding op_of
op_of-ne-none b h = get_elem?-ne-none ops b h

transfer-ne-none : (m : Module) (i d x : ℕ) (op : Op) → transfer m i d x (some op) ≢ none
unfolding transfer
transfer-ne-none m i d x op_nop = cc
transfer-ne-none m i d x _ = ground arith

-- The analysis knows every opcode of a module that was emitted.
pub transfer_at-ne-none : (m : Module) (i d : ℕ) → IsModule m → transfer_at m i d ≢ none
unfolding transfer_at
transfer_at-ne-none m i d v e =
    let word = get_or m.code i 0 in
    elim (Option-cases (op_of (instr_op word))) [
      | inl o ↦ op_of-ne-none _ (get_or-op m.code i v.in_range) o
      | inr (op, o) ↦ transfer-ne-none m i d (instr_operand word) op (rw o at e)
    ]

follow-ne-unknown :
    (m : Module) (i : ℕ) (o : Option Transfer) (s : Flow) → o ≢ none → follow m i o s ≢ unknown
unfolding follow
follow-ne-unknown m i none s n e = n refl
follow-ne-unknown m i (some t) s n e = cc

visit-ne-unknown :
    (m : Module) (i : ℕ) (o : Option ℕ) (s : Flow) → IsModule m → visit m i o s ≢ unknown
unfolding visit
visit-ne-unknown m i none s v e = cc
visit-ne-unknown m i (some d) s v e =
    follow-ne-unknown m i (transfer_at m i d) _ (transfer_at-ne-none m i d v) e

pub Outcome-cases : (o : Outcome) → (o ≡ unknown) ⊎ ((s : Flow) × (o ≡ running s))
Outcome-cases unknown = inl refl
Outcome-cases (running s) = inr (s, refl)

flow_loop-Inv :
    (fuel : ℕ) (m : Module) (work : List ℕ) (s : Flow) {r : ℕ}
    → IsModule m
    → Inv m s
    → s.work ≡ work
    → flow_loop fuel m work s ≡ some r
    → (t : Flow) × Inv m t × (t.work ≡ []) × (t.deepest ≡ r)
unfolding flow_loop continue_flow
flow_loop-Inv zero m work s v inv w e = cc
flow_loop-Inv (suc fuel) m [] s v inv w e = (s, inv, w, cc)
flow_loop-Inv (suc fuel) m (i ∷ work) s v inv w e =
    let o = visit m i (get_or s.depth i none) (record s { work = work }) in
    elim (Outcome-cases o) [
      | inl u ↦ absurd (visit-ne-unknown m i _ _ v u)
      | inr (t, k) ↦
          flow_loop-Inv fuel m t.work t v (visit-Inv m i work s _ inv w refl k) refl
            (rw (k, continue_flow) at e)
    ]

pub get_or-replicate : (n i : ℕ) → ◌≡◌ {A = Option ℕ} (get_or (replicate n none) i none) none
get_or-replicate zero i = refl
get_or-replicate (suc n) zero = refl
get_or-replicate (suc n) (suc i) = get_or-replicate n i

pub flow_start-Inv : (m : Module) → Inv m (flow_start m)
flow_start-Inv m =
    let n = length m.code in
    let s : Flow = record { depth = replicate n none; work = []; deepest = 0 } in
    let g = reach-Grows n 0 (some 0) s (length-replicate n none) in
    record {
      size = g.length_is ∙ length-replicate n none;
      origin = λ h. reach-Covered n 0 0 s (length-replicate n none) h;
      done =
          λ i e h. elim (g.fresh i h) [ inr p ↦ inl p | inl old ↦ cc (old, get_or-replicate n i) ];
    }

-- What `computeMaxStack` answers for code that was emitted is at least the depth with which any
-- flow reaches an instruction, and at least the depth behind it.
pub compute_max_stack-bound :
    (fuel : ℕ) (m : Module) {r i d : ℕ}
    → IsModule m
    → compute_max_stack fuel m ≡ some r
    → Reaches m i d
    → (d ≤ r)
      × ((t : Transfer) (x : ℕ) → transfer_at m i d ≡ some t → t.after ≡ some (some x) → x ≤ r)
unfolding compute_max_stack
compute_max_stack-bound fuel m v e reached =
    let (t, inv, ended, is) = flow_loop-Inv fuel m _ (flow_start m) v (flow_start-Inv m) refl e in
    rw (← is) (Reaches-deepest m t inv ended reached)
