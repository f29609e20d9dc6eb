-- ===== src/Slots/Invariant.antt =====
-- src/runtime/CallerSlots.cpp: the books of a window, and what a submission may rely on.
use proto_clojure.Base.{
  ℕ, zero, suc, ◌+◌, ◌-◌, ◌≤◌, ◌≡◌, refl, Bool, true, false, Option, none, some, List, [], ◌∷◌,
  arith, ltb, leb, not, if◌then◌else◌, get_elem?, set, total, total-set, total-elem, Bool-cases,
  inl, inr, if_cases, if_split, subst,
}
use proto_clojure.Slots.{
  PrimitiveWindow, CallerSlots, max_slots, acquire, release, drop_permit, release_block, Scope,
  slots_scope, permit_scope, block_scope, nested_scope, close, Roots,
}

abbrev pub one : Bool → ℕ
one true = 1
one false = 0

-- Slots outside the window, and blocks that are held.
abbrev pub outside : Scope → ℕ
outside (slots_scope s) = one (not s.in_window)
outside (block_scope held) = one held
outside _ = 0

abbrev pub permitting : Scope → ℕ
permitting (permit_scope e) = one e
permitting _ = 0

abbrev pub nesting : Scope → ℕ
nesting nested_scope = 1
nesting _ = 0

-- The slots in the window lie below `next`, those of each object directly under those of the objects
-- inside it, down to the first slot.
abbrev pub IsStacked : ℕ → ℕ → List Scope → Type 0
IsStacked base next [] = next ≡ base
IsStacked base next (slots_scope s ∷ rest) =
    if s.in_window
    then (s.slots + s.n ≡ next) × IsStacked base s.slots rest
    else IsStacked base next rest
IsStacked base next (_ ∷ rest) = IsStacked base next rest

pub record IsBooked (base end frame : ℕ) (r : Roots) : Type 0 where
  pub stacked : IsStacked base r.window.next r.scopes
  pub fits : r.window.next ≤ end
  pub end_is : r.window.end ≡ end
  pub frame_is : r.window.frame ≡ frame
  pub local_is : r.window.local ≡ total outside r.scopes
  pub permits_is : r.window.permits ≡ total permitting r.scopes
  pub depth_is : r.window.depth ≡ 1 + total nesting r.scopes

module _ (base end frame : ℕ) where
  abbrev pub Opened : Roots → Option (CallerSlots × PrimitiveWindow) → Type 0
  Opened r none = Unit
  Opened r (some (s, w)) =
      IsBooked base end frame (record { window = w; scopes = slots_scope s ∷ r.scopes })

  pub acquire-Opened :
      (ctx n : ℕ) (r : Roots) → IsBooked base end frame r → Opened r (acquire ctx n r.window)
  unfolding acquire
  acquire-Opened ctx n r b = if_cases (Opened r) (ltb max_slots n) tt (
      if_split (Opened r) (leb n (r.window.end - r.window.next))
        (λ e. record {
          stacked = (refl, b.stacked);
          fits = ground (arith, b.fits, b.end_is);
          end_is = b.end_is;
          frame_is = b.frame_is;
          local_is = omega (arith, b.local_is);
          permits_is = omega (arith, b.permits_is);
          depth_is = omega (arith, b.depth_is);
        })
        (λ e. record {
          stacked = b.stacked;
          fits = b.fits;
          end_is = b.end_is;
          frame_is = b.frame_is;
          local_is = omega (arith, b.local_is);
          permits_is = omega (arith, b.permits_is);
          depth_is = omega (arith, b.depth_is);
        }))

  release-IsBooked :
      (s : CallerSlots) (rest : List Scope) (w : PrimitiveWindow)
      → IsBooked base end frame (record { window = w; scopes = slots_scope s ∷ rest })
      → IsBooked base end frame (record { window = release s w; scopes = rest })
  unfolding release
  release-IsBooked s rest w b = elim (Bool-cases s.in_window) [
    | inl e ↦
        let (under, below) = rw e at b.stacked in
        rw e (record {
          stacked = below;
          fits = omega (arith, under, b.fits);
          end_is = b.end_is;
          frame_is = b.frame_is;
          local_is = ground (arith, b.local_is);
          permits_is = omega (arith, b.permits_is);
          depth_is = omega (arith, b.depth_is);
        })
    | inr e ↦ rw e (record {
      stacked = rw e at b.stacked;
      fits = b.fits;
      end_is = b.end_is;
      frame_is = b.frame_is;
      local_is = ground (arith, b.local_is);
      permits_is = omega (arith, b.permits_is);
      depth_is = omega (arith, b.depth_is);
    })
  ]

  -- The counts of a window that keeps its slots.
  pub recounted :
      (r : Roots) (scopes : List Scope) (l p d : ℕ)
      → IsBooked base end frame r
      → IsStacked base r.window.next scopes
      → l ≡ total outside scopes
      → p ≡ total permitting scopes
      → d ≡ 1 + total nesting scopes
      → IsBooked base end frame (record {
        window = record r.window { local = l; permits = p; depth = d };
        scopes = scopes;
      })
  recounted r scopes l p d b stacked hl hp hd = record {
    stacked = stacked;
    fits = b.fits;
    end_is = b.end_is;
    frame_is = b.frame_is;
    local_is = hl;
    permits_is = hp;
    depth_is = hd;
  }

  pub close-IsBooked :
      (s : Scope) (rest : List Scope) (w : PrimitiveWindow)
      → IsBooked base end frame (record { window = w; scopes = s ∷ rest })
      → IsBooked base end frame (record { window = close s w; scopes = rest })
  unfolding close drop_permit release_block
  close-IsBooked (slots_scope s) rest w b = release-IsBooked s rest w b
  close-IsBooked (permit_scope true) rest w b =
      recounted _ rest w.local (w.permits - 1) w.depth b b.stacked (omega (arith, b.local_is))
        (omega (arith, b.permits_is)) (omega (arith, b.depth_is))
  close-IsBooked (permit_scope false) rest w b =
      recounted _ rest w.local w.permits w.depth b b.stacked (omega (arith, b.local_is))
        (omega (arith, b.permits_is)) (omega (arith, b.depth_is))
  close-IsBooked (block_scope true) rest w b =
      recounted _ rest (w.local - 1) w.permits w.depth b b.stacked (omega (arith, b.local_is))
        (omega (arith, b.permits_is)) (omega (arith, b.depth_is))
  close-IsBooked (block_scope false) rest w b =
      recounted _ rest w.local w.permits w.depth b b.stacked (omega (arith, b.local_is))
        (omega (arith, b.permits_is)) (omega (arith, b.depth_is))
  close-IsBooked nested_scope rest w b =
      recounted _ rest w.local w.permits (w.depth - 1) b b.stacked (omega (arith, b.local_is))
        (omega (arith, b.permits_is)) (omega (arith, b.depth_is))

  IsStacked-cons :
      (z : Scope) (xs ys : List Scope) (next : ℕ)
      → ((n : ℕ) → IsStacked base n xs → IsStacked base n ys)
      → IsStacked base next (z ∷ xs)
      → IsStacked base next (z ∷ ys)
  IsStacked-cons (slots_scope s) xs ys next f h = elim (Bool-cases s.in_window) [
    | inl e ↦ let (under, below) = rw e at h in rw e (under, f s.slots below)
    | inr e ↦ rw e (f next (rw e at h))
  ]
  IsStacked-cons (permit_scope e) xs ys next f h = f next h
  IsStacked-cons (block_scope e) xs ys next f h = f next h
  IsStacked-cons nested_scope xs ys next f h = f next h

  IsStacked-set :
      (xs : List Scope) (i : ℕ) (x y : Scope) (next : ℕ)
      → get_elem? xs i ≡ some x
      → ((n : ℕ) (rest : List Scope) → IsStacked base n (x ∷ rest) → IsStacked base n (y ∷ rest))
      → IsStacked base next xs
      → IsStacked base next (set xs i y)
  IsStacked-set [] i x y next e f h = h
  IsStacked-set (z ∷ xs) zero x y next e f h =
      let same : z ≡ x = cc in f next xs (subst (λ u. IsStacked base next (u ∷ xs)) same h)
  IsStacked-set (z ∷ xs) (suc i) x y next e f h =
      IsStacked-cons z xs (set xs i y) next (λ n k. IsStacked-set xs i x y n e f k) h

  -- An object that is replaced by one with the same slots.
  pub replaced :
      (r : Roots) (i : ℕ) (x y : Scope) (l : ℕ)
      → IsBooked base end frame r
      → get_elem? r.scopes i ≡ some x
      → ((n : ℕ) (rest : List Scope) → IsStacked base n (x ∷ rest) → IsStacked base n (y ∷ rest))
      → l + outside x ≡ r.window.local + outside y
      → permitting x ≡ permitting y
      → nesting x ≡ nesting y
      → IsBooked base end frame
          (record { window = record r.window { local = l }; scopes = set r.scopes i y })
  replaced r i x y l b e f hl hp hn =
      recounted r (set r.scopes i y) l r.window.permits r.window.depth b
        (IsStacked-set r.scopes i x y r.window.next e f b.stacked)
        (omega (
          arith,
          hl,
          b.local_is,
          total-set outside r.scopes i x y e,
          total-elem outside r.scopes i x e,
        ))
        (omega (arith, hp, b.permits_is, total-set permitting r.scopes i x y e))
        (omega (arith, hn, b.depth_is, total-set nesting r.scopes i x y e))
