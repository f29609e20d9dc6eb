-- ===== src/Bytecode/Module/Opcode.antt =====
-- src/runtime/BytecodeModule.h: `patchOp`, with which locals clearing replaces an opcode.
use proto_clojure.Base.{
  ℕ, ◌<◌, ◌≡◌, ◌≢◌, ap, sym, ◌∙◌, false, arith, length, get_or, get_or-set_self, get_or-set_ne,
}
use proto_clojure.Bytecode.Module.{Module, patch_op, is_try_begin}
use proto_clojure.Bytecode.Module.Laws.{
  IsModule, instr_parts, has_try-set, All-set, get_or-operand, op_code-lt_byte,
}
use proto_clojure.Bytecode.Opcodes.{Op, op_code, instr, instr_op, instr_operand}
use proto_clojure.Bytecode.Opcodes.Words.{op_code-lt}

-- In a well-formed module, `patchOp` at a position of the code, where neither the old nor the new
-- opcode is TRY_BEGIN, replaces the opcode there, keeps its operand and every other word, and
-- leaves the module well formed.
pub patch_op_lem :
    (at : ℕ) (op : Op) (m : Module)
    → IsModule m
    → at < length m.code
    → is_try_begin (op_code op) ≡ false
    → is_try_begin (instr_op (get_or m.code at 0)) ≡ false
    → (instr_op (get_or (patch_op at op m).code at 0) ≡ op_code op)
      × (instr_operand (get_or (patch_op at op m).code at 0) ≡ instr_operand (get_or m.code at 0))
      × ((i : ℕ) → at ≢ i → get_or (patch_op at op m).code i 0 ≡ get_or m.code i 0)
      × IsModule (patch_op at op m)
unfolding patch_op
patch_op_lem at op m v h new old =
    let operand = instr_operand (get_or m.code at 0) in
    let word = instr operand (op_code op) in
    let (op_is, operand_is) = instr_parts operand (op_code op) (op_code-lt_byte op) in
    let here = get_or-set_self m.code at word 0 h in
    (
      ap instr_op here ∙ op_is,
      ap instr_operand here ∙ operand_is,
      λ i ne. get_or-set_ne m.code at i word 0 ne,
      record {
        flagged =
            v.flagged ∙ sym (has_try-set m.code at word (ap is_try_begin op_is ∙ new ∙ sym old));
        in_range =
            All-set m.code at word
              (
                (omega (arith, get_or-operand m.code at v.in_range, op_code-lt_byte op)),
                rw op_is (op_code-lt op),
              )
              v.in_range;
      },
    )
