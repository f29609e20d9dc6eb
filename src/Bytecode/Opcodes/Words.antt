-- ===== src/Bytecode/Opcodes/Words.antt =====
-- src/runtime/Opcodes.h: an opcode is recovered from its value and its word.
use proto_clojure.Base.{◌≡◌, ◌<◌, refl, some, arith}
use proto_clojure.Bytecode.Opcodes

pub op_of-op_code : (op : Opcodes.Op) → Opcodes.op_of (Opcodes.op_code op) ≡ some op
unfolding Opcodes.op_of Opcodes.op_code
op_of-op_code Opcodes.Op.op_nop = refl
op_of-op_code _ = refl

pub op_code-lt : (op : Opcodes.Op) → Opcodes.op_code op < 41
unfolding Opcodes.op_code
op_code-lt Opcodes.Op.op_nop = omega arith
op_code-lt _ = omega arith
