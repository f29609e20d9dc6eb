-- ===== src/Bytecode/MaxStack/Inv.antt =====
-- src/runtime/BytecodeModule.cpp: the invariant of the loop of `computeMaxStack`.
use mathlib.Core.Path.{subst₂}
use proto_clojure.Base.{
  subst, ℕ, suc, ◌≤◌, ◌<◌, ◌≡◌, refl, sym, ◌∙◌, true, Option, none, some, inl, inr, ◌⊎◌, List, ◌∷◌,
  arith, ◌==◌, ==→eq, Bool-cases, Option-cases, length, get_or,
}
use proto_clojure.Bytecode.MaxStack.{
  Transfer, transfer_at, Flow, reach_jump, reach_next, deepen, running, visit,
}
use proto_clojure.Bytecode.MaxStack.Reach.{
  elem, Covered, Grows, Grows-refl, Grows-trans, reach-Grows, reach-Covered,
}
use proto_clojure.Bytecode.Module.{Module}

-- The instruction at `i` has been followed from the depth `e`.
pub record IsDone (m : Module) (s : Flow) (i e : ℕ) : Type 0 where
  pub deep : e ≤ s.deepest
  pub effect : Transfer
  pub known : transfer_at m i e ≡ some effect
  pub jumped : (j x : ℕ) → effect.jump ≡ some (j, some x) → j < length m.code → Covered s j x
  pub fallen :
      (x : ℕ)
      → effect.after ≡ some (some x)
      → (x ≤ s.deepest) × (suc i < length m.code → Covered s (suc i) x)

IsDone-Grows : {m : Module} {s t : Flow} {i e : ℕ} → Grows s t → IsDone m s i e → IsDone m t i e
IsDone-Grows g d = record {
  deep = omega (arith, d.deep, g.deepest_le);
  effect = d.effect;
  known = d.known;
  jumped = λ j x h l. g.covered j x (d.jumped j x h l);
  fallen =
      λ x h. let (le, c) = d.fallen x h in (omega (arith, g.deepest_le), λ l. g.covered _ x (c l));
}

pub record Inv (m : Module) (s : Flow) : Type 0 where
  pub size : length s.depth ≡ length m.code
  pub origin : 0 < length m.code → Covered s 0 0
  pub done : (i e : ℕ) → get_or s.depth i none ≡ some e → (elem i s.work ≡ true) ⊎ IsDone m s i e

-- The work list is no part of it.
IsDone-work :
    {m : Module} {s : Flow} {i e : ℕ} (work : List ℕ)
    → IsDone m s i e
    → IsDone m (record s { work = work }) i e
IsDone-work work d = record {
  deep = d.deep;
  effect = d.effect;
  known = d.known;
  jumped = d.jumped;
  fallen = d.fallen;
}

-- The deepest point alone changes.
deepen-Grows : (d : Option ℕ) (s : Flow) → Grows s (deepen d s)
deepen-Grows none s = Grows-refl s
deepen-Grows (some d) s = record {
  length_is = refl;
  deepest_le = ground arith;
  covered = λ j x c. c;
  pending = λ i p. p;
  fresh = λ i h. inl h;
}

reach_jump-Grows :
    (n : ℕ) (j : Option (ℕ × Option ℕ)) (s : Flow) → length s.depth ≡ n → Grows s (reach_jump n j s)
unfolding reach_jump
reach_jump-Grows n none s l = Grows-refl s
reach_jump-Grows n (some (at, d)) s l = reach-Grows n at d s l

reach_next-Grows :
    (n i : ℕ) (a : Option (Option ℕ)) (s : Flow) → length s.depth ≡ n → Grows s (reach_next n i a s)
unfolding reach_next
reach_next-Grows n i none s l = Grows-refl s
reach_next-Grows n i (some a) s l =
    let g = deepen-Grows a s in
    Grows-trans g (reach-Grows n (suc i) a (deepen a s) (g.length_is ∙ l))

reach_jump-Covered :
    (n : ℕ) (o : Option (ℕ × Option ℕ)) (s : Flow) (j x : ℕ)
    → length s.depth ≡ n
    → o ≡ some (j, some x)
    → j < n
    → Covered (reach_jump n o s) j x
unfolding reach_jump
reach_jump-Covered n o s j x l e h = rw e (reach-Covered n j x s l h)

reach_next-Covered :
    (n i : ℕ) (o : Option (Option ℕ)) (s : Flow) (x : ℕ)
    → length s.depth ≡ n
    → o ≡ some (some x)
    → (x ≤ (reach_next n i o s).deepest) × (suc i < n → Covered (reach_next n i o s) (suc i) x)
unfolding reach_next
reach_next-Covered n i o s x l e =
    let s' = deepen (some x) s in
    let deep = (reach-Grows n (suc i) (some x) s' l).deepest_le in
    rw e (ground (arith, deep), λ h. reach-Covered n (suc i) x s' l h)

module _ (m : Module) (i d : ℕ) (t : Transfer) (s : Flow) (size : length s.depth ≡ length m.code)
    (known : transfer_at m i d ≡ some t) where
  jumped_to : Flow
  jumped_to = reach_jump (length m.code) t.jump (deepen (some d) s)

  jumped_deep : d ≤ jumped_to.deepest
  unfolding jumped_to
  jumped_deep =
      let g = reach_jump-Grows (length m.code) t.jump (deepen (some d) s) size in
      ground (arith, g.deepest_le)

  followed : Flow
  followed = reach_next (length m.code) i t.after jumped_to

  jumped-Grows : Grows s jumped_to
  unfolding jumped_to
  jumped-Grows =
      let g = deepen-Grows (some d) s in
      Grows-trans g
        (reach_jump-Grows (length m.code) t.jump (deepen (some d) s) (g.length_is ∙ size))

  followed-Grows : Grows s followed
  unfolding followed
  followed-Grows =
      Grows-trans jumped-Grows
        (reach_next-Grows (length m.code) i t.after jumped_to (jumped-Grows.length_is ∙ size))

  -- What was followed is done.
  followed-IsDone : IsDone m followed i d
  unfolding followed
  followed-IsDone =
      let n = length m.code in
      let g = reach_next-Grows n i t.after jumped_to (jumped-Grows.length_is ∙ size) in
      record {
        deep = omega (arith, jumped_deep, g.deepest_le);
        effect = t;
        known = known;
        jumped = λ j x h l.
            g.covered j x
              (unfold jumped_to in reach_jump-Covered n t.jump (deepen (some d) s) j x size h l);
        fallen =
            λ x h. reach_next-Covered n i t.after jumped_to x (jumped-Grows.length_is ∙ size) h;
      }

pub running-injective : (s t : Flow) → running s ≡ running t → s ≡ t
running-injective s t e = cc

-- The round at an instruction that has a depth.
followed-Inv :
    (m : Module) (i d : ℕ) (effect : Transfer) (work : List ℕ) (s : Flow)
    → Inv m s
    → s.work ≡ i ∷ work
    → get_or s.depth i none ≡ some d
    → (known : transfer_at m i d ≡ some effect) → (size : length s.depth ≡ length m.code)
    → Inv m (followed m i d effect (record s { work = work }) size known)
followed-Inv m i d effect work s inv w seen known size =
    let s' = record s { work = work } in
    let g = followed-Grows m i d effect s' size known in
    record {
      size = g.length_is ∙ size;
      origin = λ h. g.covered 0 0 (inv.origin h);
      done = λ j x h. elim (g.fresh j h) [
        | inr p ↦ inl p
        | inl old ↦ elim (Bool-cases (j == i)) [
          | inl same ↦ inr (
              subst₂ (IsDone m _) (sym (==→eq j i same)) (cc (==→eq j i same, old, seen))
                (followed-IsDone m i d effect s' size known))
          | inr other ↦ elim (inv.done j x old) [
            | inl p ↦ inl (g.pending j (ground arith))
            | inr q ↦ inr (IsDone-Grows g (IsDone-work work q))
          ]
        ]
      ];
    }

visit-followed :
    (m : Module) (i d : ℕ) (effect : Transfer) (s : Flow)
    → (known : transfer_at m i d ≡ some effect) → (size : length s.depth ≡ length m.code)
    → visit m i (some d) s ≡ running (followed m i d effect s size known)
unfolding visit followed jumped_to
visit-followed m i d effect s known size = rw known

-- One round keeps the invariant.
pub visit-Inv :
    (m : Module) (i : ℕ) (work : List ℕ) (s : Flow) (o : Option ℕ) {t : Flow}
    → Inv m s
    → s.work ≡ i ∷ work
    → get_or s.depth i none ≡ o
    → visit m i o (record s { work = work }) ≡ running t
    → Inv m t
unfolding visit
visit-Inv m i work s none inv w seen e = subst (Inv m) (running-injective _ _ e) (record {
  size = inv.size;
  origin = inv.origin;
  done = λ j x h. elim (Bool-cases (j == i)) [
    | inl same ↦ cc (==→eq j i same, h, seen)
    | inr other ↦ elim (inv.done j x h) [
      | inl p ↦ inl (ground arith)
      | inr q ↦ inr (IsDone-work work q)
    ]
  ];
})
visit-Inv m i work s (some d) inv w seen e = elim (Option-cases (transfer_at m i d)) [
  | inl unknown_op ↦ cc (rw (unknown_op) at e)
  | inr (effect, known) ↦
      subst (Inv m) (running-injective _ _ (sym (visit-followed m i d effect _ known inv.size) ∙ e))
        (followed-Inv m i d effect work s inv w seen known inv.size)
]
