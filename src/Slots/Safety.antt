-- ===== src/Slots/Safety.antt =====
-- src/runtime/CallerSlots.h: what holds of the slots of a primitive call, whatever scopes it opens
-- and closes, and what is in traced slots when a loop hands the frame's chain to the collector.
use proto_clojure.Base.{
  ℕ, suc, ◌+◌, ◌-◌, ◌%◌, ◌<◌, ◌≢◌, ◌≤◌, ◌≡◌, refl, ap, ◌∙◌, Bool, true, false, some, List, [], ◌∷◌,
  arith, ltb, ◌==◌, ◌&&◌, if_cases, subst, get_elem?, set, total, total-elem, Bool-cases, inl, inr,
}
use proto_clojure.Slots.{
  PrimitiveWindow, CallerSlots, permit, hold, release_block, safepoint, tick, Scope, slots_scope,
  permit_scope, block_scope, nested_scope, Roots, Step, open_slots, open_permit, open_block,
  open_nested, close_scope, hold_block, free_block, submit, count, Reachable, installed, then_step,
}
use proto_clojure.Slots.Invariant.{
  outside, permitting, nesting, IsStacked, IsBooked, recounted, replaced, Opened, acquire-Opened,
  close-IsBooked,
}

module _ (base end frame : ℕ) where
  abbrev Permitted : Roots → Bool × PrimitiveWindow → Type 0
  Permitted r (e, w) =
      IsBooked base end frame (record { window = w; scopes = permit_scope e ∷ r.scopes })

  permit-Permitted :
      (ctx : ℕ) (r : Roots) → IsBooked base end frame r → Permitted r (permit ctx r.window)
  unfolding permit
  permit-Permitted ctx r b =
      let w = r.window in
      if_cases (Permitted r) (w.frame == ctx && w.depth == 1)
        (recounted base end frame r (permit_scope true ∷ r.scopes) w.local (w.permits + 1) w.depth b
          b.stacked (omega (arith, b.local_is)) (omega (arith, b.permits_is))
          (omega (arith, b.depth_is)))
        (recounted base end frame r (permit_scope false ∷ r.scopes) w.local w.permits w.depth b
          b.stacked (omega (arith, b.local_is)) (omega (arith, b.permits_is))
          (omega (arith, b.depth_is)))

  -- A submission counts itself and changes nothing else.
  abbrev Submitted : List Scope → Bool × PrimitiveWindow → Type 0
  Submitted scopes (done, w) = IsBooked base end frame (record { window = w; scopes = scopes })

  safepoint-Submitted :
      (s : CallerSlots) (w : PrimitiveWindow) (scopes : List Scope)
      → IsBooked base end frame (record { window = w; scopes = scopes })
      → Submitted scopes (safepoint s w)
  unfolding safepoint
  safepoint-Submitted s w scopes b =
      if_cases (Submitted scopes)
        (s.in_window && w.frame == s.ctx && w.depth == 1 && ltb 0 w.permits && w.local == 0)
        (record {
          stacked = b.stacked;
          fits = b.fits;
          end_is = b.end_is;
          frame_is = b.frame_is;
          local_is = b.local_is;
          permits_is = b.permits_is;
          depth_is = b.depth_is;
        })
        b

  abbrev Counted : Roots → ℕ → CallerSlots × Bool × PrimitiveWindow → Type 0
  Counted r i (s, done, w) =
      IsBooked base end frame (record { window = w; scopes = set r.scopes i (slots_scope s) })

  count-Counted :
      (s : CallerSlots) (i : ℕ) (r : Roots)
      → get_elem? r.scopes i ≡ some (slots_scope s)
      → IsBooked base end frame r
      → Counted r i (tick s r.window)
  unfolding tick
  count-Counted s i r e b =
      let s' = record s { ticks = s.ticks + 1 } in
      let counted =
        replaced base end frame r i (slots_scope s) (slots_scope s') r.window.local b e
          (λ n rest h. h) refl refl refl in
      if_cases (Counted r i) (s'.ticks % 64 == 0) (safepoint-Submitted s' r.window _ counted)
        counted

  Step-IsBooked :
      {r r' : Roots} → Step r r' → IsBooked base end frame r → IsBooked base end frame r'
  unfolding hold release_block
  Step-IsBooked (open_slots {r = r} ctx n e) b =
      subst (Opened base end frame r) e (acquire-Opened base end frame ctx n r b)
  Step-IsBooked (open_permit {r = r} ctx e) b = subst (Permitted r) e (permit-Permitted ctx r b)
  Step-IsBooked (open_block {r = r}) b =
      let w = r.window in
      recounted base end frame r (block_scope false ∷ r.scopes) w.local w.permits w.depth b
        b.stacked (omega (arith, b.local_is)) (omega (arith, b.permits_is))
        (omega (arith, b.depth_is))
  Step-IsBooked (open_nested {r = r}) b =
      let w = r.window in
      recounted base end frame r (nested_scope ∷ r.scopes) w.local w.permits (w.depth + 1) b
        b.stacked (omega (arith, b.local_is)) (omega (arith, b.permits_is))
        (omega (arith, b.depth_is))
  Step-IsBooked (close_scope {r = r} {s = s} {rest = rest} e) b =
      close-IsBooked base end frame s rest r.window
        (subst (λ xs. IsBooked base end frame (record { window = r.window; scopes = xs })) e b)
  Step-IsBooked (hold_block {r = r} {held = true} i e) b =
      replaced base end frame r i (block_scope true) (block_scope true) r.window.local b e
        (λ n rest h. h) refl refl refl
  Step-IsBooked (hold_block {r = r} {held = false} i e) b =
      replaced base end frame r i (block_scope false) (block_scope true) (r.window.local + 1) b e
        (λ n rest h. h) (omega arith) refl refl
  Step-IsBooked (free_block {r = r} {held = true} i e) b =
      replaced base end frame r i (block_scope true) (block_scope false) (r.window.local - 1) b e
        (λ n rest h. h)
        (omega (arith, b.local_is, total-elem outside r.scopes i (block_scope true) e)) refl refl
  Step-IsBooked (free_block {r = r} {held = false} i e) b =
      replaced base end frame r i (block_scope false) (block_scope false) r.window.local b e
        (λ n rest h. h) refl refl refl
  Step-IsBooked (submit {r = r} {s = s} i at e) b =
      subst (Submitted r.scopes) e (safepoint-Submitted s r.window r.scopes b)
  Step-IsBooked (count {r = r} {s = s} i at e) b = subst (Counted r i) e (count-Counted s i r at b)

pub Reachable-IsBooked :
    {base end frame : ℕ} {r : Roots} → Reachable base end frame r → IsBooked base end frame r
Reachable-IsBooked (installed le) = record {
  stacked = refl;
  fits = le;
  end_is = refl;
  frame_is = refl;
  local_is = refl;
  permits_is = refl;
  depth_is = omega arith;
}
Reachable-IsBooked (then_step r s) = Step-IsBooked _ _ _ s (Reachable-IsBooked r)

-- In every state that a primitive call may come to, the slots of each live object that is in the
-- window lie directly under those of the objects opened after it, from the first free slot down
-- to the first of the window, and the first free slot is not past the end.
pub window-IsStacked :
    {base end frame : ℕ} (r : Roots)
    → Reachable base end frame r
    → IsStacked base r.window.next r.scopes × (r.window.next ≤ end)
window-IsStacked r reached = let b = Reachable-IsBooked reached in (b.stacked, b.fits)

-- In every state that a primitive call may come to in which all its scopes are closed, the first
-- free slot is the first of the window, nothing is counted as outside it, no permit is counted,
-- and the depth is 1.
pub window_is_restored :
    {base end frame : ℕ} (r : Roots)
    → Reachable base end frame r
    → r.scopes ≡ []
    → (r.window.next ≡ base) × (r.window.local ≡ 0) × (r.window.permits ≡ 0) × (r.window.depth ≡ 1)
window_is_restored {base = base} r reached e =
    let b = Reachable-IsBooked reached in
    (
      subst (IsStacked base r.window.next) e b.stacked,
      b.local_is ∙ ap (total outside) e,
      b.permits_is ∙ ap (total permitting) e,
      b.depth_is ∙ ap (λ xs. 1 + total nesting xs) e,
    )

-- Something of a sum that is not 0 is not 0.
total-some :
    (f : Scope → ℕ) (xs : List Scope)
    → 0 < total f xs
    → (i : ℕ) × (x : Scope) × (get_elem? xs i ≡ some x) × (0 < f x)
total-some f [] h = absurd (omega arith)
total-some f (x ∷ xs) h = elim (Bool-cases (ltb 0 (f x))) [
  | inl e ↦ (0, x, refl, ground arith)
  | inr e ↦ let (i, y, k, p) = total-some f xs (ground arith) in (suc i, y, k, p)
]

permitting-true : (x : Scope) → 0 < permitting x → x ≡ permit_scope true
permitting-true (permit_scope true) h = refl
permitting-true (permit_scope false) h = absurd (omega arith)
permitting-true (slots_scope s) h = absurd (omega arith)
permitting-true (block_scope e) h = absurd (omega arith)
permitting-true nested_scope h = absurd (omega arith)

safepoint-true :
    (s : CallerSlots) (w : PrimitiveWindow)
    → (safepoint s w).0 ≡ true
    → (w.local ≡ 0) × (0 < w.permits) × (w.depth ≡ 1) × (w.frame ≡ s.ctx)
unfolding safepoint
safepoint-true s w e = ground arith

-- In every state that a primitive call may come to, if a safepoint of some slots submits a chain,
-- then it is the chain of the window's frame, all live slots are in the window, no block is held,
-- no primitive is nested, and a permit that takes effect is live.
pub submission_is_safe :
    {base end frame : ℕ} (r : Roots) (s : CallerSlots)
    → Reachable base end frame r
    → (safepoint s r.window).0 ≡ true
    → (s.ctx ≡ frame)
      × ((i : ℕ) (t : CallerSlots)
          → get_elem? r.scopes i ≡ some (slots_scope t)
          → t.in_window ≡ true)
      × ((i : ℕ) → get_elem? r.scopes i ≢ some (block_scope true))
      × ((i : ℕ) → get_elem? r.scopes i ≢ some nested_scope)
      × ((i : ℕ) × (get_elem? r.scopes i ≡ some (permit_scope true)))
submission_is_safe r s reached done =
    let b = Reachable-IsBooked reached in
    let (local, permits, depth, frame_is) = safepoint-true s r.window done in
    let (i, x, at, positive) =
      total-some permitting r.scopes (omega (arith, permits, b.permits_is)) in
    (
      omega (arith, frame_is, b.frame_is),
      λ j t e. ground (arith, total-elem outside r.scopes j (slots_scope t) e, local, b.local_is),
      λ j e.
          absurd
            (omega (arith, total-elem outside r.scopes j (block_scope true) e, local, b.local_is)),
      λ j e.
          absurd (omega (arith, total-elem nesting r.scopes j nested_scope e, depth, b.depth_is)),
      (i, at ∙ ap some (permitting-true x positive)),
    )
