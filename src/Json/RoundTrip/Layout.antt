-- ===== src/Json/RoundTrip/Layout.antt =====
-- src/runtime/Json.cpp: blanks between tokens, and the branch that the parser takes at each first
-- byte.
use proto_clojure.Base.{
  ℕ, zero, suc, ◌+◌, ◌*◌, ◌<◌, ◌≡◌, refl, ap, sym, ◌∙◌, Bool, true, false, ◌||◌, [], ◌∷◌, ◌++◌,
  append_assoc, arith, ◌==◌, length, length-append, replicate, Bytes, if◌then◌else◌, if_cases, All,
  codes,
}
use proto_clojure.Json.Numbers.{number, word}
use proto_clojure.Json.Parser.{
  ReadOptions, text_value, vector_value, object_value, array, object_from, value_from,
}
use proto_clojure.Json.RoundTrip.Numbers.{IsNumberStart, IsBehind}
use proto_clojure.Json.RoundTrip.Texts.{rest-advance}
use proto_clojure.Json.Source.{
  Source, end_of_input, peek, first_or_end, advance, newline, Parsed, ◌>>=◌, is_space, skip_on,
  skip_whitespace,
}
use proto_clojure.Json.Strings.{WriteOptions}
use proto_clojure.Json.Texts.{string}
use proto_clojure.Json.Writer.{newline_indent, item_lead, sequence_end, entry_lead, colon, map_end}
use proto_clojure.Json.{null, boolean, Items, Entries, Runtime}

abbrev pub is_blank : ℕ → Bool
is_blank b = is_space b || b == b'\n'

abbrev pub IsBlank : ℕ → Type 0
IsBlank b = is_blank b ≡ true

-- A text that is not empty and begins neither with a blank nor with the end of a container.
abbrev pub IsSolid : Bytes → Type 0
IsSolid w =
    (b : ℕ) × (t : Bytes) × (w ≡ b ∷ t)
    × ((is_blank b || b == b']' || b == b'}' || b == end_of_input) ≡ false)

skip_on-blanks :
    (ws : Bytes) (b : ℕ) (t : Bytes) (s : Source)
    → All IsBlank ws
    → is_blank b ≡ false
    → s.rest ≡ ws ++ b ∷ t
    → (skip_on (ws ++ b ∷ t) s).rest ≡ b ∷ t
unfolding skip_on newline
skip_on-blanks [] b t s all e h = rw e h
skip_on-blanks (w ∷ ws) b t s all e h =
    let next : (if w == b'\n' then newline (advance s) else advance s).rest ≡ ws ++ b ∷ t =
      if_cases (λ (c : Source). c.rest ≡ ws ++ b ∷ t) (w == b'\n') (rest-advance s w h)
        (rest-advance s w h) in
    rw (all.0) (skip_on-blanks ws b t _ all.1 e next)

skip-to :
    (ws : Bytes) (b : ℕ) (t : Bytes) (s : Source)
    → All IsBlank ws
    → is_blank b ≡ false
    → s.rest ≡ ws ++ b ∷ t
    → (skip_whitespace s).rest ≡ b ∷ t
unfolding skip_whitespace
skip-to ws b t s all n h = ap (λ x. (skip_on x s).rest) h ∙ skip_on-blanks ws b t s all n h

pub skip-blanks :
    (ws w : Bytes) (s : Source)
    → All IsBlank ws
    → IsSolid w
    → s.rest ≡ ws ++ w
    → (skip_whitespace s).rest ≡ w
skip-blanks ws w s all (b, t, e, n) h =
    skip-to ws b t s all (ground (arith, n)) (h ∙ ap (λ x. ws ++ x) e) ∙ sym e

replicate-blanks : (n : ℕ) → All IsBlank (replicate n b' ')
replicate-blanks zero = tt
replicate-blanks (suc n) = (refl, replicate-blanks n)

pub newline_indent-blanks : (depth : ℕ) → All IsBlank (newline_indent depth)
unfolding newline_indent
newline_indent-blanks depth = (refl, replicate-blanks (2 * depth))

module _ (runtime : Runtime) (opts : ReadOptions) (els : Source → Parsed Items)
    (ents : Source → Parsed Entries) (s : Source) where
  pub value_from-object :
      {t : Bytes}
      → s.rest ≡ b'{' ∷ t
      → value_from runtime opts els ents s
        ≡ (object_from ents (advance s) >>= object_value runtime opts)
  unfolding value_from
  value_from-object h = let here : peek s ≡ b'{' = ap first_or_end h in rw here refl

  pub value_from-array :
      {t : Bytes}
      → s.rest ≡ b'[' ∷ t
      → value_from runtime opts els ents s ≡ (array els (advance s) >>= vector_value)
  unfolding value_from
  value_from-array h = let here : peek s ≡ b'[' = ap first_or_end h in rw here refl

  pub value_from-text :
      {t : Bytes}
      → s.rest ≡ b'"' ∷ t
      → value_from runtime opts els ents s ≡ (string (advance s) >>= text_value)
  unfolding value_from
  value_from-text h = let here : peek s ≡ b'"' = ap first_or_end h in rw here refl

  pub value_from-true :
      {t : Bytes}
      → s.rest ≡ b't' ∷ t
      → value_from runtime opts els ents s ≡ word (boolean true) (codes "true") s
  unfolding value_from
  value_from-true h = let here : peek s ≡ b't' = ap first_or_end h in rw here refl

  pub value_from-false :
      {t : Bytes}
      → s.rest ≡ b'f' ∷ t
      → value_from runtime opts els ents s ≡ word (boolean false) (codes "false") s
  unfolding value_from
  value_from-false h = let here : peek s ≡ b'f' = ap first_or_end h in rw here refl

  pub value_from-null :
      {t : Bytes}
      → s.rest ≡ b'n' ∷ t
      → value_from runtime opts els ents s ≡ word null (codes "null") s
  unfolding value_from
  value_from-null h = let here : peek s ≡ b'n' = ap first_or_end h in rw here refl

  pub value_from-number :
      {b : ℕ} {t : Bytes}
      → s.rest ≡ b ∷ t
      → IsNumberStart b
      → value_from runtime opts els ents s ≡ number s
  unfolding value_from
  value_from-number {b} h e =
      let here : peek s ≡ b = ap first_or_end h in rw here (ground (arith, e))

-- The byte `b` after blanks, and blanks behind it.
abbrev pub IsToken : ℕ → Bytes → Type 0
IsToken b t =
    (ws : Bytes) × (after : Bytes) × All IsBlank ws × All IsBlank after × (t ≡ ws ++ b ∷ after)

-- The byte `b` after blanks, and nothing behind it.
abbrev pub IsClosing : ℕ → Bytes → Type 0
IsClosing b t = (ws : Bytes) × All IsBlank ws × (t ≡ ws ++ b ∷ [])

pub solid-more : (w : Bytes) → IsSolid w → (first_or_end w == end_of_input) ≡ false
solid-more w (b, t, e, n) = ap (λ x. first_or_end x == end_of_input) e ∙ ground (arith, n)

pub token-length : (b : ℕ) (t : Bytes) → IsToken b t → 0 < length t
token-length b t (ws, after, all, blanks, e) =
    omega (arith, ap length e, length-append ws (b ∷ after))

pub length-token :
    (b : ℕ) (w t ws : Bytes) → IsToken b t → length w + length ws < length (w ++ (t ++ ws))
length-token b w t ws k =
    omega (arith, length-append w (t ++ ws), length-append t ws, token-length b t k)

pub IsSolid-append : (w x : Bytes) → IsSolid w → IsSolid (w ++ x)
IsSolid-append w x (b, t, e, n) = (b, t ++ x, ap (λ y. y ++ x) e, n)

-- What a token is in front of a text.
pub token-append :
    (b : ℕ) (t ws after x : Bytes) → t ≡ ws ++ b ∷ after → t ++ x ≡ ws ++ b ∷ (after ++ x)
token-append b t ws after x e = ap (λ y. y ++ x) e ∙ append_assoc ws (b ∷ after) x

module _ (runtime : Runtime) (opts : WriteOptions) where
  pub sequence_end-IsClosing : IsClosing b']' (sequence_end runtime opts)
  unfolding sequence_end
  sequence_end-IsClosing =
      if_cases (IsClosing b']') opts.pretty (b' ' ∷ [], (refl, tt), refl) ([], tt, refl)

  pub item_lead-IsToken : IsToken b',' (item_lead runtime opts false)
  unfolding item_lead
  item_lead-IsToken =
      if_cases (IsToken b',') opts.pretty ([], b' ' ∷ [], tt, (refl, tt), refl)
        ([], [], tt, tt, refl)

  pub item_lead-blanks : All IsBlank (item_lead runtime opts true)
  unfolding item_lead
  item_lead-blanks = if_cases (All IsBlank) opts.pretty (refl, tt) tt

  indent-blanks : (depth : ℕ) → All IsBlank (if opts.pretty then newline_indent depth else [])
  indent-blanks depth = if_cases (All IsBlank) opts.pretty (newline_indent-blanks depth) tt

  pub entry_lead-IsToken : (depth : ℕ) → IsToken b',' (entry_lead runtime opts depth false)
  unfolding entry_lead
  entry_lead-IsToken depth = ([], _, tt, indent-blanks depth, refl)

  pub entry_lead-blanks : (depth : ℕ) → All IsBlank (entry_lead runtime opts depth true)
  unfolding entry_lead
  entry_lead-blanks depth = indent-blanks depth

  pub colon-IsToken : IsToken b':' (colon runtime opts)
  unfolding colon
  colon-IsToken =
      if_cases (IsToken b':') opts.pretty (b' ' ∷ [], b' ' ∷ [], (refl, tt), (refl, tt), refl)
        ([], [], tt, tt, refl)

  pub map_end-IsClosing : (depth : ℕ) → IsClosing b'}' (map_end runtime opts depth)
  unfolding map_end
  map_end-IsClosing depth = (_, indent-blanks depth, refl)

-- Blanks and then a comma or a closing bracket end a number or a word.
pub IsBehind-token :
    (ws : Bytes) (b : ℕ) (t : Bytes)
    → All IsBlank ws
    → (b == b',' || b == b']' || b == b'}') ≡ true
    → IsBehind (ws ++ b ∷ t)
IsBehind-token [] b t all e = (ground arith, ground arith)
IsBehind-token (w ∷ ws) b t all e = (ground (arith, all.0), ground (arith, all.0))

-- A token that is found behind blanks.
pub skip-token :
    (ws : Bytes) (b : ℕ) (t : Bytes) (s : Source)
    → All IsBlank ws
    → is_blank b ≡ false
    → s.rest ≡ ws ++ b ∷ t
    → ((peek (skip_whitespace s) ≡ b) × ((advance (skip_whitespace s)).rest ≡ t))
skip-token ws b t s all e h =
    let r = skip-to ws b t s all e h in (ap first_or_end r, rest-advance (skip_whitespace s) b r)
