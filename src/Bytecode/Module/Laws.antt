-- ===== src/Bytecode/Module/Laws.antt =====
-- src/runtime/BytecodeModule.cpp: what `emit`, `patchOperand` and `patchOp` do to the code.
use proto_clojure.Base.{
  ℕ, zero, suc, ◌+◌, ◌^◌, ◌≤◌, ◌<◌, ◌≡◌, refl, ap, sym, ◌∙◌, Bool, false, ◌||◌, inl, inr, List, [],
  ◌∷◌, ◌++◌, arith, lt→ltb, le→ltb, le→leb, lt→leb, ltb, leb, if◌then◌else◌, Bool-cases, length,
  length-append, append_assoc, get_or, set, All, All-append,
}
use proto_clojure.Bytecode.Opcodes.{Op, op_code, instr_op, instr_operand, instr, max_operand}
use proto_clojure.Bytecode.Opcodes.Words.{op_code-lt}
use proto_clojure.Bytecode.Module.{
  Result, Module, length_error, out_of_range, ok, err, is_try_begin, emit, patch_operand,
}

-- A word takes its two parts back.
pub instr_parts :
    (operand op : ℕ)
    → op < 256
    → (instr_op (instr operand op) ≡ op) × (instr_operand (instr operand op) ≡ operand)
instr_parts operand op h = omega arith

get_or-append_self : (xs ys : List ℕ) (v d : ℕ) → get_or (xs ++ v ∷ ys) (length xs) d ≡ v
get_or-append_self [] ys v d = refl
get_or-append_self (x ∷ xs) ys v d = get_or-append_self xs ys v d

set-append_self : (xs ys : List ℕ) (v w : ℕ) → set (xs ++ v ∷ ys) (length xs) w ≡ xs ++ w ∷ ys
set-append_self [] ys v w = refl
set-append_self (x ∷ xs) ys v w = ap (λ t. x ∷ t) (set-append_self xs ys v w)

get_or-append_left :
    (xs ys : List ℕ) (i d : ℕ) → i < length xs → get_or (xs ++ ys) i d ≡ get_or xs i d
get_or-append_left [] ys i d h = elim h [ ]
get_or-append_left (x ∷ xs) ys zero d h = refl
get_or-append_left (x ∷ xs) ys (suc i) d h = get_or-append_left xs ys i d (omega arith)

pub op_code-lt_byte : (op : Op) → op_code op < 256
op_code-lt_byte op = omega (arith, op_code-lt op)

-- `emit` appends one word, which decodes to the opcode and the operand, and leaves the words in
-- front of it; an operand over the limit raises the length error.
pub emit_lem :
    (op : Op) (operand : ℕ) (m : Module)
    → (max_operand < operand → emit op operand m ≡ err (length_error (op_code op) operand))
      × (operand ≤ max_operand
          → (n : Module) × (emit op operand m ≡ ok (length m.code, n))
            × (length n.code ≡ length m.code + 1)
            × (instr_op (get_or n.code (length m.code) 0) ≡ op_code op)
            × (instr_operand (get_or n.code (length m.code) 0) ≡ operand)
            × ((i : ℕ) → i < length m.code → get_or n.code i 0 ≡ get_or m.code i 0))
unfolding emit
emit_lem op operand m = (
  λ h. rw (lt→ltb _ _ h),
  λ h.
      let word = instr operand (op_code op) in
      let parts = instr_parts operand (op_code op) (op_code-lt_byte op) in
      (
        record m {
          code = m.code ++ word ∷ [];
          has_handlers = m.has_handlers || is_try_begin (op_code op);
        },
        rw (le→ltb operand max_operand h),
        omega (arith, length-append m.code (word ∷ [])),
        rw get_or-append_self parts.0,
        rw get_or-append_self parts.1,
        λ i l. get_or-append_left m.code (word ∷ []) i 0 l,
      ),
)

patch_operand-written :
    (m : Module) (before after : List ℕ) (op : Op) (old new : ℕ)
    → m.code ≡ before ++ instr old (op_code op) ∷ after
    → patch_operand (length before) new m ≡ (
        if ltb max_operand new
        then err (length_error (op_code op) new)
        else ok (record m { code = before ++ instr new (op_code op) ∷ after }))
unfolding patch_operand
patch_operand-written m before after op old new e =
    let word = instr old (op_code op) in
    let parts = instr_parts old (op_code op) (op_code-lt_byte op) in
    let inside : leb (length (before ++ word ∷ after)) (length before) ≡ false =
      lt→leb (length before) (length (before ++ word ∷ after))
        (omega (arith, length-append before (word ∷ after))) in
    rw e (
      rw (inside, get_or-append_self, parts.0)
        (elim (Bool-cases (ltb max_operand new)) [
          | inl f ↦ rw f
          | inr f ↦ rw f (rw set-append_self)
        ]))

-- What is emitted later is behind the code of `emit`; an error of `emit` is one of the patch.
abbrev pub patched : List ℕ → Module → Result (ℕ × Module) → Result Module
patched after later (err e) = err e
patched after later (ok (at, n)) = ok (record later { code = n.code ++ after })

emit-code :
    (op : Op) (operand : ℕ) (m : Module) {at : ℕ} {n : Module}
    → emit op operand m ≡ ok (at, n)
    → (at ≡ length m.code) × (n.code ≡ m.code ++ instr operand (op_code op) ∷ [])
unfolding emit
emit-code op operand m e = ground arith

patched-emit :
    (op : Op) (operand : ℕ) (m later : Module) (after : List ℕ)
    → patched after later (emit op operand m) ≡ (
        if ltb max_operand operand
        then err (length_error (op_code op) operand)
        else ok (record later { code = m.code ++ instr operand (op_code op) ∷ after }))
unfolding emit
patched-emit op operand m later after = elim (Bool-cases (ltb max_operand operand)) [
  | inl e ↦ rw e refl
  | inr e ↦ rw e (
      ap (λ (c : List ℕ). ok (record later { code = c }))
        (append_assoc m.code (instr operand (op_code op) ∷ []) after))
]

-- Patching the operand of an instruction that was emitted, whatever was emitted since, gives the
-- code that emitting it with the new operand would have begun, with what was emitted since behind
-- it, or the error that emitting it would have raised.
pub patch_operand-emit :
    (op : Op) (old new : ℕ) (m later : Module) (after : List ℕ) {at : ℕ} {n : Module}
    → emit op old m ≡ ok (at, n)
    → later.code ≡ n.code ++ after
    → patch_operand at new later ≡ patched after later (emit op new m)
patch_operand-emit op old new m later after e l =
    let (here, code) = emit-code op old m e in
    let written : later.code ≡ m.code ++ instr old (op_code op) ∷ after =
      l ∙ ap (λ c. c ++ after) code ∙ append_assoc m.code (instr old (op_code op) ∷ []) after in
    rw here (
      patch_operand-written later m.code after op old new written
      ∙ sym (patched-emit op new m later after))

-- A position that no instruction has raises the range error, whatever the operand.
pub patch_operand-out_of_range :
    (at operand : ℕ) (m : Module)
    → length m.code ≤ at
    → patch_operand at operand m ≡ err (out_of_range at)
unfolding patch_operand
patch_operand-out_of_range at operand m h = rw (le→leb _ _ h)

-- Some word of the code has the opcode TRY_BEGIN.
abbrev pub has_try : List ℕ → Bool
has_try [] = false
has_try (w ∷ code) = is_try_begin (instr_op w) || has_try code

abbrev pub IsInstr : ℕ → Type 0
IsInstr w = (w < 2 ^ 32) × (instr_op w < 41)

-- The flag tells of a TRY_BEGIN in the code; every word fits in 32 bits and has an opcode.
pub record IsModule (m : Module) : Type 0 where
  pub flagged : m.has_handlers ≡ has_try m.code
  pub in_range : All IsInstr m.code

has_try-concat :
    (code : List ℕ) (w : ℕ) → has_try (code ++ w ∷ []) ≡ (has_try code || is_try_begin (instr_op w))
has_try-concat [] w = ground arith
has_try-concat (x ∷ code) w = ground (arith, has_try-concat code w)

pub has_try-set :
    (code : List ℕ) (i w : ℕ)
    → is_try_begin (instr_op w) ≡ is_try_begin (instr_op (get_or code i 0))
    → has_try (set code i w) ≡ has_try code
has_try-set [] i w h = refl
has_try-set (x ∷ code) zero w h = rw h
has_try-set (x ∷ code) (suc i) w h = rw (has_try-set code i w h)

pub All-set : (code : List ℕ) (i w : ℕ) → IsInstr w → All IsInstr code → All IsInstr (set code i w)
All-set [] i w h a = tt
All-set (x ∷ code) zero w h a = (h, a.1)
All-set (x ∷ code) (suc i) w h a = (a.0, All-set code i w h a.1)

emit-ok :
    (op : Op) (operand : ℕ) (m : Module) {at : ℕ} {n : Module}
    → emit op operand m ≡ ok (at, n)
    → (operand ≤ max_operand)
      × (n ≡ record m {
        code = m.code ++ instr operand (op_code op) ∷ [];
        has_handlers = m.has_handlers || is_try_begin (op_code op);
      })
unfolding emit
emit-ok op operand m e = ground arith

patch_operand-ok :
    (at operand : ℕ) (m : Module) {n : Module}
    → patch_operand at operand m ≡ ok n
    → (operand ≤ max_operand)
      × (n ≡ record m { code = set m.code at (instr operand (instr_op (get_or m.code at 0))) })
unfolding patch_operand
patch_operand-ok at operand m e = ground arith

pub get_or-operand :
    (code : List ℕ) (i : ℕ) → All IsInstr code → instr_operand (get_or code i 0) ≤ max_operand
get_or-operand [] i a = omega arith
get_or-operand (w ∷ code) zero a = omega (arith, a.0.0)
get_or-operand (w ∷ code) (suc i) a = get_or-operand code i a.1

pub get_or-op : (code : List ℕ) (i : ℕ) → All IsInstr code → instr_op (get_or code i 0) < 41
get_or-op [] i a = omega arith
get_or-op (w ∷ code) zero a = a.0.1
get_or-op (w ∷ code) (suc i) a = get_or-op code i a.1

-- Emitting keeps a module well formed: the flag for handlers is set exactly where the code has a
-- TRY_BEGIN, and every word is within 32 bits and has one of the opcodes.
pub emit-IsModule :
    (op : Op) (operand : ℕ) (m : Module) {at : ℕ} {n : Module}
    → IsModule m
    → emit op operand m ≡ ok (at, n)
    → IsModule n
emit-IsModule op operand m v e =
    let (h, is) = emit-ok op operand m e in
    let byte = op_code-lt_byte op in
    rw is (record {
      flagged =
          ap (λ b. b || is_try_begin (op_code op)) v.flagged
          ∙ sym (
              has_try-concat m.code (instr operand (op_code op))
              ∙ rw (instr_parts operand (op_code op) byte).0);
      in_range =
          All-append _ m.code _ v.in_range
            ((omega arith, rw (instr_parts operand (op_code op) byte).0 (op_code-lt op)), tt);
    })

-- Patching an operand keeps a module well formed.
pub patch_operand-IsModule :
    (at operand : ℕ) (m : Module) {n : Module}
    → IsModule m
    → patch_operand at operand m ≡ ok n
    → IsModule n
patch_operand-IsModule at operand m v e =
    let (h, is) = patch_operand-ok at operand m e in
    let op = instr_op (get_or m.code at 0) in
    rw is (record {
      flagged =
          v.flagged
          ∙ sym (has_try-set m.code at (instr operand op) (ap is_try_begin (omega arith)));
      in_range =
          All-set m.code at (instr operand op)
            (
              (omega arith),
              rw (instr_parts operand op (omega arith)).0 (get_or-op m.code at v.in_range),
            )
            v.in_range;
    })
