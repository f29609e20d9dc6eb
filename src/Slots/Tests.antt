-- ===== src/Slots/Tests.antt =====
-- src/runtime/CallerSlots.cpp: the theorems on slots at a primitive that takes three of them.
use proto_clojure.Base.{ℕ, ◌≤◌, ◌≡◌, ◌≢◌, refl, true, some, [], ◌∷◌, arith, get_elem?}
use proto_clojure.Slots.{
  CallerSlots, Roots, slots_scope, permit_scope, block_scope, nested_scope, made, acquire, permit,
  close, safepoint, open_permit, open_slots, close_scope, Reachable, installed, then_step,
}
use proto_clojure.Slots.Invariant.{IsStacked}
use proto_clojure.Slots.Safety.{window-IsStacked, window_is_restored, submission_is_safe}

-- The window of eight slots that the engine installs for the frame 1.
abbrev fresh : Roots
fresh = record {
  window = record {
    frame = 1;
    next = 100;
    end = 108;
    depth = 1;
    local = 0;
    permits = 0;
    submissions = 0;
  };
  scopes = [];
}

abbrev three : CallerSlots
three = made 1 3 fresh.window true

-- A permit, and three slots.
abbrev working : Roots
working = record {
  window = record fresh.window { next = 103; permits = 1 };
  scopes = slots_scope three ∷ permit_scope true ∷ [];
}

working-Reachable : Reachable 100 108 1 working
unfolding acquire permit
working-Reachable =
    then_step (then_step (installed (omega arith)) (open_permit 1 refl)) (open_slots 1 3 refl)

-- All of it closed again.
closed-Reachable : Reachable 100 108 1 fresh
unfolding close
closed-Reachable = then_step (then_step working-Reachable (close_scope refl)) (close_scope refl)

window-IsStacked_example :
    IsStacked 100 working.window.next working.scopes × (working.window.next ≤ 108)
window-IsStacked_example = window-IsStacked working working-Reachable

window_is_restored_example :
    (fresh.window.next ≡ 100)
    × (fresh.window.local ≡ 0)
    × (fresh.window.permits ≡ 0)
    × (fresh.window.depth ≡ 1)
window_is_restored_example = window_is_restored fresh closed-Reachable refl

submission_is_safe_example :
    (three.ctx ≡ 1)
    × ((i : ℕ) (t : CallerSlots)
        → get_elem? working.scopes i ≡ some (slots_scope t)
        → t.in_window ≡ true)
    × ((i : ℕ) → get_elem? working.scopes i ≢ some (block_scope true))
    × ((i : ℕ) → get_elem? working.scopes i ≢ some nested_scope)
    × ((i : ℕ) × (get_elem? working.scopes i ≡ some (permit_scope true)))
unfolding safepoint
submission_is_safe_example = submission_is_safe working three working-Reachable refl
