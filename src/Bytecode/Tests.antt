-- ===== src/Bytecode/Tests.antt =====
-- src/runtime/BytecodeModule.cpp: the theorems on bytecode at small modules.
use mathlib.Core.Path.{subst₂}
use proto_clojure.Base.{
  ◌≢◌, ℕ, ◌+◌, ◌≤◌, ◌<◌, ◌≡◌, refl, ◌⊎◌, inl, inr, true, none, some, [], ◌∷◌, ◌++◌, arith, length,
  get_or, codes, pos,
}
use proto_clojure.Bytecode.MaxStack.{Transfer, transfer_at, compute_max_stack}
use proto_clojure.Bytecode.MaxStack.Bound.{compute_max_stack-bound}
use proto_clojure.Bytecode.MaxStack.Ends.{compute_max_stack_ends}
use proto_clojure.Bytecode.MaxStack.Reaches.{Reaches, entry, jump, next}
use proto_clojure.Bytecode.Module.{
  patch_op, Module, empty_module, emit, patch_operand, ok, err, length_error,
}
use proto_clojure.Bytecode.Module.Laws.{
  IsModule, emit_lem, emit-IsModule, patched, patch_operand-emit, patch_operand-IsModule,
}
use proto_clojure.Bytecode.Module.Opcode.{patch_op_lem}
use proto_clojure.Bytecode.Opcodes.{
  op_push_local_clear, op_code, op_of, instr, instr_op, instr_operand, max_operand, op_push_const,
  op_dup, op_jump_if_false, op_jump_back, op_return, op_try_begin,
}
use proto_clojure.Bytecode.Pool.{empty_pool, string, long}
use proto_clojure.Bytecode.Pool.Adds.{add_const, IsAdded, add_const_lem, empty_pool-IsPool}

-- A loop that leaves a value on the stack.
abbrev loop_module : Module
loop_module = record empty_module {
  code =
      instr 0 (op_code op_push_const)
      ∷ instr 0 (op_code op_dup)
      ∷ instr 1 (op_code op_jump_if_false)
      ∷ instr 3 (op_code op_jump_back)
      ∷ instr 0 (op_code op_return)
      ∷ [];
}

loop_module-IsModule : IsModule loop_module
unfolding op_code
loop_module-IsModule = record {
  flagged = refl;
  in_range = (
    (omega arith, omega arith),
    (
      (omega arith, omega arith),
      ((omega arith, omega arith), ((omega arith, omega arith), ((omega arith, omega arith), tt))),
    ),
  );
}

compute_max_stack-bound_example :
    (2 ≤ 2)
    × ((t : Transfer) (x : ℕ)
        → transfer_at loop_module 2 2 ≡ some t
        → t.after ≡ some (some x)
        → x ≤ 2)
unfolding transfer_at compute_max_stack op_code op_of
compute_max_stack-bound_example = compute_max_stack-bound 20 loop_module loop_module-IsModule refl (
    next (next (entry {i = 0} refl refl (omega arith)) refl refl refl (omega arith)) refl refl refl
      (omega arith))

-- A constant that is returned.
abbrev constant_module : Module
constant_module = record empty_module {
  code = instr 0 (op_code op_push_const) ∷ instr 0 (op_code op_return) ∷ [];
}

first_transfer :
    {t : Transfer}
    → transfer_at constant_module 0 0 ≡ some t
    → (t.jump ≡ none) × (t.after ≡ some (some 1))
unfolding transfer_at op_code op_of
first_transfer k = ground arith

last_transfer :
    {t : Transfer} → transfer_at constant_module 1 1 ≡ some t → (t.jump ≡ none) × (t.after ≡ none)
unfolding transfer_at op_code op_of
last_transfer k = ground arith

transfer_is :
    {i j d e : ℕ} (t : Transfer)
    → i ≡ j
    → d ≡ e
    → transfer_at constant_module i d ≡ some t
    → transfer_at constant_module j e ≡ some t
transfer_is t ei ed k = subst₂ (λ i d. transfer_at constant_module i d ≡ some t) ei ed k

constant_depths :
    {i d : ℕ} → Reaches constant_module i d → ((i ≡ 0) × (d ≡ 0)) ⊎ ((i ≡ 1) × (d ≡ 1))
constant_depths (entry ei ed l) = inl (ei, ed)
constant_depths (jump {t = t} r k j l) = elim (constant_depths r) [
  | inl (ei, ed) ↦ cc (j, (first_transfer (transfer_is t ei ed k)).0)
  | inr (ei, ed) ↦ cc (j, (last_transfer (transfer_is t ei ed k)).0)
]
constant_depths (next {t = t} r k a e l) = elim (constant_depths r) [
  | inl (ei, ed) ↦ inr (cc (e, ei), cc (a, (first_transfer (transfer_is t ei ed k)).1))
  | inr (ei, ed) ↦ cc (a, (last_transfer (transfer_is t ei ed k)).1)
]

constant_bound : (i d : ℕ) → Reaches constant_module i d → d < 2
constant_bound i d r = elim (constant_depths r) [
  | inl (ei, ed) ↦ omega arith
  | inr (ei, ed) ↦ omega arith
]

compute_max_stack_ends_example : (r : ℕ) × (compute_max_stack 5 constant_module ≡ some r)
compute_max_stack_ends_example =
    compute_max_stack_ends constant_module 2 5 constant_bound (omega arith)

emit_lem_example :
    (max_operand < 3
      → emit op_jump_back 3 loop_module ≡ err (length_error (op_code op_jump_back) 3))
    × (3 ≤ max_operand
        → (n : Module) × (emit op_jump_back 3 loop_module ≡ ok (length loop_module.code, n))
          × (length n.code ≡ length loop_module.code + 1)
          × (instr_op (get_or n.code (length loop_module.code) 0) ≡ op_code op_jump_back)
          × (instr_operand (get_or n.code (length loop_module.code) 0) ≡ 3)
          × ((i : ℕ)
              → i < length loop_module.code
              → get_or n.code i 0 ≡ get_or loop_module.code i 0))
emit_lem_example = emit_lem op_jump_back 3 loop_module

emit-IsModule_example : IsModule (record loop_module {
  code = loop_module.code ++ instr 2 (op_code op_try_begin) ∷ [];
  has_handlers = true;
})
unfolding emit op_code
emit-IsModule_example = emit-IsModule op_try_begin 2 loop_module loop_module-IsModule refl

-- A jump emitted with operand 0, and a return behind it, before the jump is patched.
abbrev jumping : Module
jumping = record empty_module { code = instr 0 (op_code op_jump_if_false) ∷ [] }

abbrev returned : Module
returned = record jumping { code = jumping.code ++ instr 0 (op_code op_return) ∷ [] }

patch_operand-emit_example :
    patch_operand 0 9 returned
    ≡ patched (instr 0 (op_code op_return) ∷ []) returned (emit op_jump_if_false 9 empty_module)
unfolding emit op_code
patch_operand-emit_example =
    patch_operand-emit op_jump_if_false 0 9 empty_module returned (instr 0 (op_code op_return) ∷ [])
      refl refl

patch_operand-IsModule_example : IsModule (record loop_module {
  code =
      instr 0 (op_code op_push_const)
      ∷ instr 0 (op_code op_dup)
      ∷ instr 2 (op_code op_jump_if_false)
      ∷ instr 3 (op_code op_jump_back)
      ∷ instr 0 (op_code op_return)
      ∷ [];
})
unfolding patch_operand op_code
patch_operand-IsModule_example = patch_operand-IsModule 2 2 loop_module loop_module-IsModule refl

add_const_lem_example :
    IsAdded
      (string (codes "a"))
      (add_const (long (pos 3)) empty_pool).1
      (add_const (string (codes "a")) (add_const (long (pos 3)) empty_pool).1)
add_const_lem_example =
    add_const_lem (string (codes "a")) (add_const (long (pos 3)) empty_pool).1
      (add_const_lem (long (pos 3)) empty_pool empty_pool-IsPool).still

-- The word 1 becomes a PUSH_LOCAL_CLEAR.
patch_op_lem_example :
    (instr_op (get_or (patch_op 1 op_push_local_clear loop_module).code 1 0)
      ≡ op_code op_push_local_clear)
    × (instr_operand (get_or (patch_op 1 op_push_local_clear loop_module).code 1 0)
        ≡ instr_operand (get_or loop_module.code 1 0))
    × ((i : ℕ)
        → 1 ≢ i
        → get_or (patch_op 1 op_push_local_clear loop_module).code i 0
          ≡ get_or loop_module.code i 0)
    × IsModule (patch_op 1 op_push_local_clear loop_module)
unfolding op_code
patch_op_lem_example =
    patch_op_lem 1 op_push_local_clear loop_module loop_module-IsModule (omega arith) refl refl
