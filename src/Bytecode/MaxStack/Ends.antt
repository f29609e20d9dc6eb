-- ===== src/Bytecode/MaxStack/Ends.antt =====
-- src/runtime/BytecodeModule.cpp: the loop of `computeMaxStack` ends where the depths of the flow
-- are bounded, since each entry of the work list comes with a greater depth.
use mathlib.Core.Path.{subst₂}
use proto_clojure.Base.{
  ℕ, zero, suc, ◌+◌, ◌-◌, ◌*◌, ◌≤◌, ◌<◌, ◌≡◌, refl, ap, sym, ◌∙◌, subst, false, ◌||◌, Option, none,
  some, inl, inr, List, [], ◌∷◌, arith, leb, ◌==◌, ==→eq, Bool-cases, Option-cases, length, get_or,
  set, replicate, length-replicate, length-set,
}
use proto_clojure.Bytecode.MaxStack.{
  transfer_at, Flow, is_covered, reach, reach_jump, reach_next, deepen, running, visit,
  continue_flow, flow_loop, compute_max_stack,
}
use proto_clojure.Bytecode.MaxStack.Reach.{get_or-set}
use proto_clojure.Bytecode.MaxStack.Reaches.{Reaches, entry, jump, next}
use proto_clojure.Bytecode.MaxStack.Bound.{get_or-replicate, Outcome-cases}
use proto_clojure.Bytecode.MaxStack.Inv.{running-injective}
use proto_clojure.Bytecode.Module.{Module}

-- How often the depth of a place may still grow below the bound.
room : ℕ → Option ℕ → ℕ
room bound none = bound
room bound (some d) = bound - suc d

slack : ℕ → List (Option ℕ) → ℕ
slack bound [] = 0
slack bound (o ∷ depth) = room bound o + slack bound depth

slack-set :
    (bound : ℕ) (depth : List (Option ℕ)) (i d : ℕ)
    → i < length depth
    → is_covered (get_or depth i none) d ≡ false
    → d < bound
    → slack bound (set depth i (some d)) < slack bound depth
unfolding slack room is_covered
slack-set bound [] i d l n b = elim l [ ]
slack-set bound (none ∷ depth) zero d l n b = omega arith
slack-set bound (some e ∷ depth) zero d l n b = ground arith
slack-set bound (o ∷ depth) (suc i) d l n b =
    omega (arith, slack-set bound depth i d (omega arith) n b)

slack-replicate : (bound n : ℕ) → slack bound (replicate n none) ≡ n * bound
unfolding slack room
slack-replicate bound zero = omega arith
slack-replicate bound (suc n) = omega (arith, slack-replicate bound n)

potential : ℕ → Flow → ℕ
potential bound s = length s.work + slack bound s.depth

module _ (m : Module) (bound : ℕ) (bounded : (i d : ℕ) → Reaches m i d → d < bound) where
  -- Every depth that is noted is one that the flow reaches.
  record IsTraced (s : Flow) : Type 0 where
    size : length s.depth ≡ length m.code
    traced : (i e : ℕ) → get_or s.depth i none ≡ some e → Reaches m i e

  -- Of a step: the result is traced, and nothing is added to the potential.
  record IsSpent (s t : Flow) : Type 0 where
    still : IsTraced t
    spent : potential bound t ≤ potential bound s

  reach-IsSpent :
      (at : ℕ) (o : Option ℕ) (s : Flow)
      → IsTraced s
      → ((d : ℕ) → o ≡ some d → at < length m.code → Reaches m at d)
      → IsSpent s (reach (length m.code) at o s)
  unfolding reach potential
  reach-IsSpent at none s v h = record { still = v; spent = omega arith }
  reach-IsSpent at (some d) s v h =
      elim (Bool-cases (leb (length m.code) at || is_covered (get_or s.depth at none) d)) [
        | inl stop ↦ rw stop (record { still = v; spent = omega arith })
        | inr go ↦
            let l : at < length m.code = ground arith in
            let n : is_covered (get_or s.depth at none) d ≡ false = ground arith in
            let l' : at < length s.depth = omega (arith, v.size) in
            let new = h d refl l in
            rw go (record {
              still = record {
                size = length-set s.depth at (some d) ∙ v.size;
                traced = λ i e k. elim (Bool-cases (i == at)) [
                  | inl same ↦
                      let is : some d ≡ some e =
                        sym (rw same at (get_or-set s.depth at i (some d) none l')) ∙ k in
                      subst₂ (Reaches m) (sym (==→eq i at same)) (cc is) new
                  | inr other ↦
                      v.traced i e
                        (sym (rw other at (get_or-set s.depth at i (some d) none l')) ∙ k)
                ];
              };
              spent = omega (arith, slack-set bound s.depth at d l' n (bounded at d new));
            })
      ]

  IsSpent-trans : {s t u : Flow} → IsSpent s t → IsSpent t u → IsSpent s u
  IsSpent-trans a b = record { still = b.still; spent = omega (arith, a.spent, b.spent) }

  deepen-IsSpent : (o : Option ℕ) (s : Flow) → IsTraced s → IsSpent s (deepen o s)
  unfolding potential
  deepen-IsSpent none s v = record { still = v; spent = omega arith }
  deepen-IsSpent (some d) s v = record {
    still = record { size = v.size; traced = v.traced };
    spent = omega arith;
  }

  reach_jump-IsSpent :
      (o : Option (ℕ × Option ℕ)) (s : Flow)
      → IsTraced s
      → ((j d : ℕ) → o ≡ some (j, some d) → j < length m.code → Reaches m j d)
      → IsSpent s (reach_jump (length m.code) o s)
  unfolding reach_jump
  reach_jump-IsSpent none s v h = record { still = v; spent = omega arith }
  reach_jump-IsSpent (some (j, o)) s v h =
      reach-IsSpent j o s v (λ d e l. h j d (ap (λ p. some (j, p)) e) l)

  reach_next-IsSpent :
      (i : ℕ) (o : Option (Option ℕ)) (s : Flow)
      → IsTraced s
      → ((d : ℕ) → o ≡ some (some d) → suc i < length m.code → Reaches m (suc i) d)
      → IsSpent s (reach_next (length m.code) i o s)
  unfolding reach_next
  reach_next-IsSpent i none s v h = record { still = v; spent = omega arith }
  reach_next-IsSpent i (some o) s v h =
      let a = deepen-IsSpent o s v in
      IsSpent-trans a (reach-IsSpent (suc i) o (deepen o s) a.still (λ d e l. h d (ap some e) l))

  visit-IsSpent :
      (i : ℕ) (o : Option ℕ) (s : Flow) {t : Flow}
      → IsTraced s
      → get_or s.depth i none ≡ o
      → visit m i o s ≡ running t
      → IsSpent s t
  unfolding visit
  visit-IsSpent i none s v seen e =
      subst (IsSpent s) (running-injective _ _ e) (record { still = v; spent = omega arith })
  visit-IsSpent i (some d) s v seen e = elim (Option-cases (transfer_at m i d)) [
    | inl u ↦ cc (rw u at e)
    | inr (t, k) ↦
        let r = v.traced i d seen in
        let a = deepen-IsSpent (some d) s v in
        let b = reach_jump-IsSpent t.jump (deepen (some d) s) a.still (λ j x h l. jump r k h l) in
        let c = reach_next-IsSpent i t.after _ b.still (λ x h l. next r k h refl l) in
        subst (IsSpent s) (running-injective _ _ (rw k at e)) (IsSpent-trans a (IsSpent-trans b c))
  ]

  flow_loop_ends :
      (fuel : ℕ) (work : List ℕ) (s : Flow)
      → IsTraced s
      → s.work ≡ work
      → potential bound s < fuel
      → (r : ℕ) × (flow_loop fuel m work s ≡ some r)
  unfolding flow_loop continue_flow
  flow_loop_ends zero work s v w h = absurd (omega arith)
  flow_loop_ends (suc fuel) [] s v w h = (s.deepest, refl)
  flow_loop_ends (suc fuel) (i ∷ work) s v w h =
      let s' = record s { work = work } in
      let v' : IsTraced s' = record { size = v.size; traced = v.traced } in
      elim (Outcome-cases (visit m i (get_or s.depth i none) s')) [
        | inl u ↦ (64, rw (u, continue_flow))
        | inr (t, k) ↦
            let sp = visit-IsSpent i _ s' v' refl k in
            let (r, e) =
              flow_loop_ends fuel t.work t sp.still refl
                (unfold potential in omega (arith, sp.spent, ap length w)) in
            (r, rw (k, continue_flow) e)
      ]

-- If the depths with which the flow reaches the instructions stay below a bound,
-- `computeMaxStack` answers within any number of rounds above the number of instructions times
-- the bound.
pub compute_max_stack_ends :
    (m : Module) (bound fuel : ℕ)
    → ((i d : ℕ) → Reaches m i d → d < bound)
    → length m.code * bound < fuel
    → (r : ℕ) × (compute_max_stack fuel m ≡ some r)
unfolding compute_max_stack potential
compute_max_stack_ends m bound fuel bounded h =
    let n = length m.code in
    let s : Flow = record { depth = replicate n none; work = []; deepest = 0 } in
    let traced : IsTraced m bound bounded s = record {
      size = length-replicate n none;
      traced = λ i e k. cc (k, get_or-replicate n i);
    } in
    let first = reach-IsSpent m bound bounded 0 (some 0) s traced (λ d e l. entry refl (cc e) l) in
    flow_loop_ends m bound bounded fuel _ _ first.still refl
      (omega (arith, first.spent, slack-replicate bound n))
