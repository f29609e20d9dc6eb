-- ===== src/Bytecode/MaxStack.antt =====
-- src/runtime/BytecodeModule.cpp: `computeMaxStack`, a forward flow analysis with a work list.
-- A depth is an int there; a negative one is never followed and never the deepest, whatever its
-- value, and is `none` here.
pub mod Reaches
pub mod Reach
pub mod Inv
pub mod Bound
pub mod Ends
use proto_clojure.Base.{
  ℕ, zero, suc, ◌+◌, ◌-◌, ◌*◌, Bool, true, false, ◌||◌, Option, none, some, List, [], ◌∷◌, ltb, leb,
  if◌then◌else◌, length, get_or, set, replicate,
}
use proto_clojure.Bytecode.Module.{Module}
use proto_clojure.Bytecode.Opcodes.{
  Op, op_of, instr_op, instr_operand, op_nop, op_push_const, op_push_var, op_call, op_pop,
  op_return, op_store_global, op_jump, op_jump_if_false, op_push_nil, op_push_true, op_push_false,
  op_push_local, op_store_local, op_make_fn, op_jump_back, op_call_apply, op_dup, op_jump_if_true,
  op_make_fn_multi, op_add, op_sub, op_mul, op_lt, op_le, op_gt, op_ge, op_eq, op_call_kw,
  op_try_begin, op_try_end, op_throw, op_exc_match, op_rethrow, op_exc_match_type, op_resolve_class,
  op_get_member, op_call_member, op_store_caught, op_push_local_clear, op_line,
}

-- a - b as an int
unfoldable pub minus : ℕ → ℕ → Option ℕ
minus a b = if leb b a then some (a - b) else none

-- What an instruction does to the depth: the place that it may jump to with the depth there, and
-- the depth behind it, if it goes on to the next instruction.
pub record Transfer : Type 0 where
  pub jump : Option (ℕ × Option ℕ)
  pub after : Option (Option ℕ)

abbrev goes_on : Option ℕ → Option Transfer
goes_on after = some (record { jump = none; after = some after })

abbrev stops : Option Transfer
stops = some (record { jump = none; after = none })

abbrev sum_captures : List ℕ → List ℕ → ℕ
sum_captures blocks [] = 0
sum_captures blocks (b ∷ indices) = get_or blocks b 0 + sum_captures blocks indices

-- The switch, at the instruction `i` with the depth `d`; `none` for an opcode that it does not
-- know.
unfoldable pub transfer : Module → ℕ → ℕ → ℕ → Option Op → Option Transfer
unfolding minus
transfer m i d operand none = none
transfer m i d operand (some op_push_const) = goes_on (some (d + 1))
transfer m i d operand (some op_push_var) = goes_on (some (d + 1))
transfer m i d operand (some op_push_nil) = goes_on (some (d + 1))
transfer m i d operand (some op_push_true) = goes_on (some (d + 1))
transfer m i d operand (some op_push_false) = goes_on (some (d + 1))
transfer m i d operand (some op_push_local) = goes_on (some (d + 1))
transfer m i d operand (some op_push_local_clear) = goes_on (some (d + 1))
transfer m i d operand (some op_dup) = goes_on (some (d + 1))
transfer m i d operand (some op_resolve_class) = goes_on (some (d + 1))
transfer m i d operand (some op_pop) = goes_on (minus d 1)
transfer m i d operand (some op_store_local) = goes_on (minus d 1)
transfer m i d operand (some op_store_caught) = goes_on (minus d 1)
transfer m i d operand (some op_add) = goes_on (minus d 1)
transfer m i d operand (some op_sub) = goes_on (minus d 1)
transfer m i d operand (some op_mul) = goes_on (minus d 1)
transfer m i d operand (some op_lt) = goes_on (minus d 1)
transfer m i d operand (some op_le) = goes_on (minus d 1)
transfer m i d operand (some op_gt) = goes_on (minus d 1)
transfer m i d operand (some op_ge) = goes_on (minus d 1)
transfer m i d operand (some op_eq) = goes_on (minus d 1)
transfer m i d operand (some op_call_apply) = goes_on (minus d 1)
transfer m i d operand (some op_exc_match_type) = goes_on (minus d 1)
transfer m i d operand (some op_nop) = goes_on (some d)
transfer m i d operand (some op_store_global) = goes_on (some d)
transfer m i d operand (some op_try_end) = goes_on (some d)
transfer m i d operand (some op_exc_match) = goes_on (some d)
transfer m i d operand (some op_get_member) = goes_on (some d)
transfer m i d operand (some op_line) = goes_on (some d)
transfer m i d operand (some op_call) = goes_on (minus d operand)
transfer m i d operand (some op_call_kw) = goes_on (minus d operand)
transfer m i d operand (some op_call_member) = goes_on (minus d operand)
transfer m i d operand (some op_make_fn) = goes_on (minus (d + 1) (get_or m.blocks operand 0))
transfer m i d operand (some op_make_fn_multi) =
    goes_on (minus (d + 1) (sum_captures m.blocks (get_or m.arity_groups operand [])))
transfer m i d operand (some op_jump) =
    some (record { jump = some (suc i + operand, some d); after = none })
transfer m i d operand (some op_jump_back) =
    if leb operand (suc i)
    then some (record { jump = some (suc i - operand, some d); after = none })
    else stops
transfer m i d operand (some op_jump_if_false) =
    some (record { jump = some (suc i + operand, minus d 1); after = some (minus d 1) })
transfer m i d operand (some op_jump_if_true) =
    some (record { jump = some (suc i + operand, minus d 1); after = some (minus d 1) })
transfer m i d operand (some op_try_begin) =
    some (record { jump = some (suc i + operand, some (d + 1)); after = some (some d) })
transfer m i d operand (some op_return) = stops
transfer m i d operand (some op_throw) = stops
transfer m i d operand (some op_rethrow) = stops

-- The instruction at `i` of the code.
unfoldable pub transfer_at : Module → ℕ → ℕ → Option Transfer
unfolding transfer
transfer_at m i d =
    let word = get_or m.code i 0 in transfer m i d (instr_operand word) (op_of (instr_op word))

-- The variables of the analysis; the back of the vector `work` is the front of the list.
pub record Flow : Type 0 where
  pub depth : List (Option ℕ)
  pub work : List ℕ
  pub deepest : ℕ

-- d <= depth[at]
unfoldable pub is_covered : Option ℕ → ℕ → Bool
is_covered none d = false
is_covered (some e) d = leb d e

-- `reach`, with the number of instructions.
unfoldable pub reach : ℕ → ℕ → Option ℕ → Flow → Flow
unfolding is_covered
reach n at none s = s
reach n at (some d) s =
    if leb n at || is_covered (get_or s.depth at none) d
    then s
    else record s { depth = set s.depth at (some d); work = at ∷ s.work }

unfoldable pub reach_jump : ℕ → Option (ℕ × Option ℕ) → Flow → Flow
unfolding reach
reach_jump n none s = s
reach_jump n (some (at, d)) s = reach n at d s

abbrev pub max_ℕ : ℕ → ℕ → ℕ
max_ℕ a b = if ltb a b then b else a

abbrev pub deepen : Option ℕ → Flow → Flow
deepen none s = s
deepen (some d) s = record s { deepest = max_ℕ s.deepest d }

unfoldable pub reach_next : ℕ → ℕ → Option (Option ℕ) → Flow → Flow
unfolding reach
reach_next n i none s = s
reach_next n i (some after) s = reach n (suc i) after (deepen after s)

pub data Outcome : Type 0 where
  running : Flow → Outcome
  unknown : Outcome

-- The body of the loop at the instruction `i` with its depth, the work list without `i`.
unfoldable pub follow : Module → ℕ → Option Transfer → Flow → Outcome
unfolding reach_jump reach_next
follow m i none s = unknown
follow m i (some t) s =
    let n = length m.code in running (reach_next n i t.after (reach_jump n t.jump s))

-- Only positions that have a depth stand in the work list.
unfoldable pub visit : Module → ℕ → Option ℕ → Flow → Outcome
unfolding follow transfer_at
visit m i none s = running s
visit m i (some d) s = follow m i (transfer_at m i d) (deepen (some d) s)

-- What a round leaves, the work list apart, goes to the loop.
unfoldable pub continue_flow : (List ℕ → Flow → Option ℕ) → Outcome → Option ℕ
continue_flow loop unknown = some 64
continue_flow loop (running s) = loop s.work s

-- The loop; `none` where the fuel runs out, 64 for an opcode that the analysis does not know.
unfoldable pub flow_loop : ℕ → Module → List ℕ → Flow → Option ℕ
unfolding visit continue_flow
flow_loop zero m work s = none
flow_loop (suc fuel) m [] s = some s.deepest
flow_loop (suc fuel) m (i ∷ work) s =
    continue_flow (flow_loop fuel m) (visit m i (get_or s.depth i none) (record s { work = work }))

abbrev pub flow_start : Module → Flow
flow_start m =
    reach (length m.code) 0 (some 0)
      (record { depth = replicate (length m.code) none; work = []; deepest = 0 })

unfoldable pub compute_max_stack : ℕ → Module → Option ℕ
unfolding flow_loop reach
compute_max_stack fuel m = let s = flow_start m in flow_loop fuel m s.work s
