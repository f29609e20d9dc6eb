-- ===== src/Bytecode/MaxStack/Reaches.antt =====
-- src/runtime/BytecodeModule.cpp: the depths that the flow of a body's code reaches, as a relation,
-- and that a deeper start leads to the same places no less deep.
use proto_clojure.Base.{ℕ, suc, ◌+◌, ◌≤◌, ◌<◌, ◌≡◌, Option, none, some, length, arith}
use proto_clojure.Bytecode.MaxStack.{Transfer, transfer, transfer_at, minus}
use proto_clojure.Bytecode.Module.{Module}
use proto_clojure.Bytecode.Opcodes.{Op, op_nop}

-- Some way through the code comes to the instruction with that depth of the operand stack.
pub data Reaches (m : Module) : ℕ → ℕ → Type 0 where
  entry : {i d : ℕ} → i ≡ 0 → d ≡ 0 → i < length m.code → Reaches m i d
  jump :
      {i d j e : ℕ} {t : Transfer}
      → Reaches m i d
      → transfer_at m i d ≡ some t
      → t.jump ≡ some (j, some e)
      → j < length m.code
      → Reaches m j e
  next :
      {i d j e : ℕ} {t : Transfer}
      → Reaches m i d
      → transfer_at m i d ≡ some t
      → t.after ≡ some (some e)
      → j ≡ suc i
      → j < length m.code
      → Reaches m j e

abbrev pub LeDepth : Option ℕ → Option ℕ → Type 0
LeDepth none b = Unit
LeDepth (some a) none = ⊥
LeDepth (some a) (some b) = a ≤ b

abbrev pub LeJump : Option (ℕ × Option ℕ) → Option (ℕ × Option ℕ) → Type 0
LeJump none none = Unit
LeJump (some (i, a)) (some (j, b)) = (i ≡ j) × LeDepth a b
LeJump _ _ = ⊥

abbrev pub LeAfter : Option (Option ℕ) → Option (Option ℕ) → Type 0
LeAfter none none = Unit
LeAfter (some a) (some b) = LeDepth a b
LeAfter _ _ = ⊥

abbrev pub LeTransfer : Option Transfer → Option Transfer → Type 0
LeTransfer none none = Unit
LeTransfer (some t) (some u) = LeJump t.jump u.jump × LeAfter t.after u.after
LeTransfer _ _ = ⊥

minus_mono : (a b c : ℕ) → a ≤ b → LeDepth (minus a c) (minus b c)
unfolding minus
minus_mono a b c h = ground arith

transfer_mono :
    (m : Module) (i d e x : ℕ) (op : Option Op)
    → d ≤ e
    → LeTransfer (transfer m i d x op) (transfer m i e x op)
unfolding transfer
transfer_mono m i d e x none h = tt
transfer_mono m i d e x (some op_nop) h = (tt, h)
transfer_mono m i d e x (some _) h =
    ground (arith, minus_mono d e 1 h, minus_mono d e x h, minus_mono (d + 1) (e + 1))

pub transfer_at_mono :
    (m : Module) (i d e : ℕ) → d ≤ e → LeTransfer (transfer_at m i d) (transfer_at m i e)
unfolding transfer_at
transfer_at_mono m i d e h = transfer_mono m i d e _ _ h
