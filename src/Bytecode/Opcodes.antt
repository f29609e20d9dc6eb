-- ===== src/Bytecode/Opcodes.antt =====
-- src/runtime/Opcodes.h: the instruction set and the instruction word; `opName` of
-- src/runtime/BytecodeModule.cpp.
pub mod Words
use proto_clojure.Base.{
  ℕ, ◌+◌, ◌*◌, ◌/◌, ◌%◌, Option, none, some, List, [], ◌∷◌, Bytes, codes, get_elem?,
}

pub data Op : Type 0 where
  op_nop op_push_const op_push_var op_call op_pop op_return : Op
  op_store_global op_jump op_jump_if_false op_push_nil op_push_true op_push_false : Op
  op_push_local op_store_local op_make_fn op_jump_back op_call_apply op_dup : Op
  op_jump_if_true op_make_fn_multi op_add op_sub op_mul op_lt : Op
  op_le op_gt op_ge op_eq op_call_kw op_try_begin : Op
  op_try_end op_throw op_exc_match op_rethrow op_exc_match_type op_resolve_class : Op
  op_get_member op_call_member op_store_caught op_push_local_clear op_line : Op

-- The value of the enumerator.
unfoldable pub op_code : Op → ℕ
op_code op_nop = 0
op_code op_push_const = 1
op_code op_push_var = 2
op_code op_call = 3
op_code op_pop = 4
op_code op_return = 5
op_code op_store_global = 6
op_code op_jump = 7
op_code op_jump_if_false = 8
op_code op_push_nil = 9
op_code op_push_true = 10
op_code op_push_false = 11
op_code op_push_local = 12
op_code op_store_local = 13
op_code op_make_fn = 14
op_code op_jump_back = 15
op_code op_call_apply = 16
op_code op_dup = 17
op_code op_jump_if_true = 18
op_code op_make_fn_multi = 19
op_code op_add = 20
op_code op_sub = 21
op_code op_mul = 22
op_code op_lt = 23
op_code op_le = 24
op_code op_gt = 25
op_code op_ge = 26
op_code op_eq = 27
op_code op_call_kw = 28
op_code op_try_begin = 29
op_code op_try_end = 30
op_code op_throw = 31
op_code op_exc_match = 32
op_code op_rethrow = 33
op_code op_exc_match_type = 34
op_code op_resolve_class = 35
op_code op_get_member = 36
op_code op_call_member = 37
op_code op_store_caught = 38
op_code op_push_local_clear = 39
op_code op_line = 40

-- The enumerators in the order of their values.
abbrev pub ops : List Op
ops =
    op_nop ∷ op_push_const ∷ op_push_var ∷ op_call ∷ op_pop ∷ op_return ∷ op_store_global ∷ op_jump
    ∷ op_jump_if_false ∷ op_push_nil ∷ op_push_true ∷ op_push_false ∷ op_push_local ∷ op_store_local
    ∷ op_make_fn ∷ op_jump_back ∷ op_call_apply ∷ op_dup ∷ op_jump_if_true ∷ op_make_fn_multi
    ∷ op_add ∷ op_sub ∷ op_mul ∷ op_lt ∷ op_le ∷ op_gt ∷ op_ge ∷ op_eq ∷ op_call_kw ∷ op_try_begin
    ∷ op_try_end ∷ op_throw ∷ op_exc_match ∷ op_rethrow ∷ op_exc_match_type ∷ op_resolve_class
    ∷ op_get_member ∷ op_call_member ∷ op_store_caught ∷ op_push_local_clear ∷ op_line ∷ []

-- `static_cast<Op>` of a byte; `none` for a value that no enumerator has.
unfoldable pub op_of : ℕ → Option Op
op_of b = get_elem? ops b

unfoldable pub op_name : Op → Bytes
op_name op_nop = codes "NOP"
op_name op_push_const = codes "PUSH_CONST"
op_name op_push_var = codes "PUSH_VAR"
op_name op_call = codes "CALL"
op_name op_pop = codes "POP"
op_name op_return = codes "RETURN"
op_name op_store_global = codes "STORE_GLOBAL"
op_name op_jump = codes "JUMP"
op_name op_jump_if_false = codes "JUMP_IF_FALSE"
op_name op_push_nil = codes "PUSH_NIL"
op_name op_push_true = codes "PUSH_TRUE"
op_name op_push_false = codes "PUSH_FALSE"
op_name op_push_local = codes "PUSH_LOCAL"
op_name op_store_local = codes "STORE_LOCAL"
op_name op_make_fn = codes "MAKE_FN"
op_name op_jump_back = codes "JUMP_BACK"
op_name op_call_apply = codes "CALL_APPLY"
op_name op_dup = codes "DUP"
op_name op_jump_if_true = codes "JUMP_IF_TRUE"
op_name op_make_fn_multi = codes "MAKE_FN_MULTI"
op_name op_add = codes "ADD"
op_name op_sub = codes "SUB"
op_name op_mul = codes "MUL"
op_name op_lt = codes "LT"
op_name op_le = codes "LE"
op_name op_gt = codes "GT"
op_name op_ge = codes "GE"
op_name op_eq = codes "EQ"
op_name op_call_kw = codes "CALL_KW"
op_name op_try_begin = codes "TRY_BEGIN"
op_name op_try_end = codes "TRY_END"
op_name op_throw = codes "THROW"
op_name op_exc_match = codes "EXC_MATCH"
op_name op_rethrow = codes "RETHROW"
op_name op_exc_match_type = codes "EXC_MATCH_TYPE"
op_name op_resolve_class = codes "RESOLVE_CLASS"
op_name op_get_member = codes "GET_MEMBER"
op_name op_call_member = codes "CALL_MEMBER"
op_name op_store_caught = codes "STORE_CAUGHT"
op_name op_push_local_clear = codes "PUSH_LOCAL_CLEAR"
op_name op_line = codes "LINE"

-- An instruction word: the opcode in the low byte, the operand in the high 24 bits.
abbrev pub instr_op : ℕ → ℕ
instr_op word = word % 256

abbrev pub instr_operand : ℕ → ℕ
instr_operand word = word / 256

-- (operand << kOperandShift) | op, for an operand below 2 ^ 24 and a byte.
abbrev pub instr : ℕ → ℕ → ℕ
instr operand op = operand * 256 + op

abbrev pub max_operand : ℕ
max_operand = 16777215
