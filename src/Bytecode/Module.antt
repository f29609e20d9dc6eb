-- ===== src/Bytecode/Module.antt =====
-- src/runtime/BytecodeModule.h and BytecodeModule.cpp: emitting and patching instructions. A block
-- is kept by its count of captures, which is all that its parent reads of it here.
pub mod Laws
pub mod Opcode
use proto_clojure.Base.{
  ℕ, suc, ◌+◌, ◌-◌, ◌*◌, ◌/◌, ◌%◌, Bool, true, false, ◌||◌, List, [], ◌∷◌, ◌++◌, ltb, leb, ◌==◌,
  if◌then◌else◌, length, get_or, set, Bytes,
}
use proto_clojure.Bytecode.Opcodes.{
  Op, op_code, op_try_begin, instr_op, instr_operand, instr, max_operand,
}

pub record Module : Type 0 where
  pub code : List ℕ
  pub blocks : List ℕ
  pub arity_groups : List (List ℕ)
  pub has_handlers : Bool

abbrev pub empty_module : Module
empty_module = record { code = []; blocks = []; arity_groups = []; has_handlers = false }

-- The exceptions that the emitter throws.
pub data EmitError : Type 0 where
  length_error : ℕ → ℕ → EmitError
  out_of_range : ℕ → EmitError

pub data Result {ℓ} (A : Type ℓ) : Type ℓ where
  ok : A → Result A
  err : EmitError → Result A

infixl 5 ◌>>=◌
abbrev pub ◌>>=◌ {ℓ κ} : {A : Type ℓ} {B : Type κ} → Result A → (A → Result B) → Result B
ok a >>= f = f a
err e >>= f = err e

-- `checkedOperand`; the opcode, as a byte, is for the message.
unfoldable pub checked_operand : ℕ → ℕ → Result ℕ
checked_operand op operand =
    if ltb max_operand operand then err (length_error op operand) else ok operand

abbrev pub is_try_begin : ℕ → Bool
is_try_begin op = op == 29

-- `emit`: the position of the new instruction, and the module with it.
unfoldable pub emit : Op → ℕ → Module → Result (ℕ × Module)
unfolding checked_operand
emit op operand m = do
  checked ← checked_operand (op_code op) operand
  ok (
    length m.code,
    record m {
      code = m.code ++ instr checked (op_code op) ∷ [];
      has_handlers = m.has_handlers || is_try_begin (op_code op);
    },
  )

unfoldable pub patch_operand : ℕ → ℕ → Module → Result Module
unfolding checked_operand
patch_operand at operand m = if leb (length m.code) at then err (out_of_range at) else do
  let op = instr_op (get_or m.code at 0)
  checked ← checked_operand op operand
  ok (record m { code = set m.code at (instr checked op) })

-- `patchOp`; the callers pass a position of the code.
unfoldable pub patch_op : ℕ → Op → Module → Module
patch_op at op m = record m {
  code = set m.code at (instr (instr_operand (get_or m.code at 0)) (op_code op));
}

abbrev pub pos : Module → ℕ
pos m = length m.code

-- `addBlock` and `addArityGroup`: the index of the new entry.
unfoldable pub add_block : ℕ → Module → ℕ × Module
add_block captures m = (length m.blocks, record m { blocks = m.blocks ++ captures ∷ [] })

unfoldable pub add_arity_group : List ℕ → Module → ℕ × Module
add_arity_group indices m =
    (length m.arity_groups, record m { arity_groups = m.arity_groups ++ indices ∷ [] })
