-- ===== src/Slots.antt =====
-- src/runtime/CallerSlots.h and CallerSlots.cpp: the slots that root what a primitive holds. One
-- window is modelled, with the scope objects that live on it, the innermost first; a slot is its
-- address, a context a number. Anchoring a value in a context's chain is a flag of the result.
pub mod Invariant
pub mod Safety
mod Tests
use proto_clojure.Base.{
  ℕ, ◌+◌, ◌-◌, ◌%◌, ◌≤◌, ◌≡◌, Bool, true, false, Option, none, some, List, [], ◌∷◌, ltb, leb, ◌==◌,
  ◌&&◌, not, if◌then◌else◌, get_elem?, set,
}

pub record PrimitiveWindow : Type 0 where
  pub frame : ℕ
  pub next : ℕ
  pub end : ℕ
  pub depth : ℕ
  pub local : ℕ
  pub permits : ℕ
  pub submissions : ℕ

-- `slots` is read only where the object is in the window.
pub record CallerSlots : Type 0 where
  pub ctx : ℕ
  pub slots : ℕ
  pub n : ℕ
  pub ticks : ℕ
  pub submissions_at_start : ℕ
  pub in_window : Bool

abbrev pub max_slots : ℕ
max_slots = 8

-- The members after the constructor.
abbrev pub made : ℕ → ℕ → PrimitiveWindow → Bool → CallerSlots
made ctx n w inside = record {
  ctx = ctx;
  slots = w.next;
  n = n;
  ticks = 0;
  submissions_at_start = w.submissions;
  in_window = inside;
}

-- The constructor; `none` is the logic error.
unfoldable pub acquire : ℕ → ℕ → PrimitiveWindow → Option (CallerSlots × PrimitiveWindow)
acquire ctx n w =
    if ltb max_slots n
    then none
    else if leb n (w.end - w.next)
    then some (made ctx n w true, record w { next = w.next + n })
    else some (made ctx n w false, record w { local = w.local + 1 })

-- The destructor.
unfoldable pub release : CallerSlots → PrimitiveWindow → PrimitiveWindow
release s w = if s.in_window then record w { next = s.slots } else record w { local = w.local - 1 }

-- `SafepointPermit`: whether it takes effect.
unfoldable pub permit : ℕ → PrimitiveWindow → Bool × PrimitiveWindow
permit ctx w =
    if w.frame == ctx && w.depth == 1
    then (true, record w { permits = w.permits + 1 })
    else (false, w)

unfoldable pub drop_permit : Bool → PrimitiveWindow → PrimitiveWindow
drop_permit effective w = if effective then record w { permits = w.permits - 1 } else w

-- `SafepointBlock`, which is held or not.
unfoldable pub hold : Bool → PrimitiveWindow → PrimitiveWindow
hold held w = if held then w else record w { local = w.local + 1 }

unfoldable pub release_block : Bool → PrimitiveWindow → PrimitiveWindow
release_block held w = if held then record w { local = w.local - 1 } else w

-- `safepoint`: whether the frame's chain was submitted.
unfoldable pub safepoint : CallerSlots → PrimitiveWindow → Bool × PrimitiveWindow
safepoint s w =
    if s.in_window && w.frame == s.ctx && w.depth == 1 && ltb 0 w.permits && w.local == 0
    then (true, record w { submissions = w.submissions + 1 })
    else (false, w)

-- `tick`, every 64th call.
unfoldable pub tick : CallerSlots → PrimitiveWindow → CallerSlots × Bool × PrimitiveWindow
unfolding safepoint
tick s w =
    let s' = record s { ticks = s.ticks + 1 } in
    let (done, w') = safepoint s' w in if s'.ticks % 64 == 0 then (s', done, w') else (s', false, w)

-- `ret`: whether the result is anchored.
unfoldable pub ret : CallerSlots → PrimitiveWindow → Bool
ret s w = not (w.submissions == s.submissions_at_start)

-- The objects of a thread whose scopes are open.
pub data Scope : Type 0 where
  slots_scope : CallerSlots → Scope
  permit_scope : Bool → Scope
  block_scope : Bool → Scope
  nested_scope : Scope

-- The destructor of each.
unfoldable pub close : Scope → PrimitiveWindow → PrimitiveWindow
unfolding release drop_permit release_block
close (slots_scope s) w = release s w
close (permit_scope effective) w = drop_permit effective w
close (block_scope held) w = release_block held w
close nested_scope w = record w { depth = w.depth - 1 }

pub record Roots : Type 0 where
  pub window : PrimitiveWindow
  pub scopes : List Scope

pub data Step : Roots → Roots → Type 0 where
  open_slots :
      {r : Roots} {s : CallerSlots} {w : PrimitiveWindow} (ctx n : ℕ)
      → acquire ctx n r.window ≡ some (s, w)
      → Step r (record { window = w; scopes = slots_scope s ∷ r.scopes })
  open_permit :
      {r : Roots} {e : Bool} {w : PrimitiveWindow} (ctx : ℕ)
      → permit ctx r.window ≡ (e, w)
      → Step r (record { window = w; scopes = permit_scope e ∷ r.scopes })
  open_block : {r : Roots} → Step r (record r { scopes = block_scope false ∷ r.scopes })
  open_nested :
      {r : Roots}
      → Step r (record {
        window = record r.window { depth = r.window.depth + 1 };
        scopes = nested_scope ∷ r.scopes;
      })
  close_scope :
      {r : Roots} {s : Scope} {rest : List Scope}
      → r.scopes ≡ s ∷ rest
      → Step r (record { window = close s r.window; scopes = rest })
  hold_block :
      {r : Roots} {held : Bool} (i : ℕ)
      → get_elem? r.scopes i ≡ some (block_scope held)
      → Step r (record { window = hold held r.window; scopes = set r.scopes i (block_scope true) })
  free_block :
      {r : Roots} {held : Bool} (i : ℕ)
      → get_elem? r.scopes i ≡ some (block_scope held)
      → Step r (record {
        window = release_block held r.window;
        scopes = set r.scopes i (block_scope false);
      })
  submit :
      {r : Roots} {s : CallerSlots} {done : Bool} {w : PrimitiveWindow} (i : ℕ)
      → get_elem? r.scopes i ≡ some (slots_scope s)
      → safepoint s r.window ≡ (done, w)
      → Step r (record r { window = w })
  count :
      {r : Roots} {s s' : CallerSlots} {done : Bool} {w : PrimitiveWindow} (i : ℕ)
      → get_elem? r.scopes i ≡ some (slots_scope s)
      → tick s r.window ≡ (s', done, w)
      → Step r (record { window = w; scopes = set r.scopes i (slots_scope s') })

-- What a primitive call may come to, from the window that the engine installs.
pub data Reachable (base end frame : ℕ) : Roots → Type 0 where
  installed :
      base ≤ end
      → Reachable base end frame (record {
        window = record {
          frame = frame;
          next = base;
          end = end;
          depth = 1;
          local = 0;
          permits = 0;
          submissions = 0;
        };
        scopes = [];
      })
  then_step : {r r' : Roots} → Reachable base end frame r → Step r r' → Reachable base end frame r'
