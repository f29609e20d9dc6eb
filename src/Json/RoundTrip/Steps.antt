-- ===== src/Json/RoundTrip/Steps.antt =====
-- src/runtime/Json.cpp: one step of the loops of `array` and `object` in front of what is written.
use proto_clojure.Base.{
  ℕ, ◌≡◌, refl, ap, sym, ◌∙◌, subst, true, false, ◌||◌, some, [], ◌∷◌, ◌++◌, append_assoc, arith,
  ◌==◌, Bytes, All,
}
use proto_clojure.Json.Parser.{
  after_element, array, after_entry, keep_entry, entry_value, entry_key, object_from,
}
use proto_clojure.Json.RoundTrip.Layout.{
  IsBlank, is_blank, IsSolid, IsToken, IsClosing, token-append, IsBehind-token, skip-token,
  skip-blanks,
}
use proto_clojure.Json.RoundTrip.Numbers.{IsBehind}
use proto_clojure.Json.Source.{
  Source, peek, first_or_end, advance, Parsed, ok, ◌>>=◌, skip_whitespace,
}
use proto_clojure.Json.Texts.{string}
use proto_clojure.Json.{Value, Items, nil, cons, Entries, end, entry}

-- A source in front of a closing byte.
closing :
    (b : ℕ) (t bs : Bytes) (s : Source)
    → IsClosing b t
    → is_blank b ≡ false
    → s.rest ≡ t ++ bs
    → (peek (skip_whitespace s) ≡ b) × ((advance (skip_whitespace s)).rest ≡ bs)
closing b t bs s (ws, all, e) n h =
    skip-token ws b bs s all n (h ∙ ap (λ x. x ++ bs) e ∙ append_assoc ws (b ∷ []) bs)

-- A source in front of a token and of a text that no blank begins.
token :
    (b : ℕ) (t w : Bytes) (s : Source)
    → IsToken b t
    → is_blank b ≡ false
    → IsSolid w
    → s.rest ≡ t ++ w
    → (peek (skip_whitespace s) ≡ b) × ((skip_whitespace (advance (skip_whitespace s))).rest ≡ w)
token b t w s (ws, after, all, blanks, e) n solid h =
    let (p, r) = skip-token ws b (after ++ w) s all n (h ∙ token-append b t ws after w e) in
    (p, skip-blanks after w (advance (skip_whitespace s)) blanks solid r)

pub closing-IsBehind :
    (b : ℕ) (t bs : Bytes)
    → IsClosing b t
    → (b == b',' || b == b']' || b == b'}') ≡ true
    → IsBehind (t ++ bs)
closing-IsBehind b t bs (ws, all, e) h =
    subst IsBehind (sym (ap (λ x. x ++ bs) e ∙ append_assoc ws (b ∷ []) bs))
      (IsBehind-token ws b bs all h)

pub token-IsBehind :
    (b : ℕ) (t bs : Bytes)
    → IsToken b t
    → (b == b',' || b == b']' || b == b'}') ≡ true
    → IsBehind (t ++ bs)
token-IsBehind b t bs (ws, after, all, blanks, e) h =
    subst IsBehind (sym (token-append b t ws after bs e)) (IsBehind-token ws b (after ++ bs) all h)

module _ (more : Source → Parsed Items) (v : Value) (s : Source) where
  pub after_element-end :
      (t bs : Bytes)
      → IsClosing b']' t
      → s.rest ≡ t ++ bs
      → (c : Source) × (after_element more v s ≡ ok (cons v nil) c) × (c.rest ≡ bs)
  unfolding after_element
  after_element-end t bs k h =
      let (p, r) = closing b']' t bs s k refl h in (advance (skip_whitespace s), rw p refl, r)

  pub after_element-more :
      (t w bs : Bytes) (vs : Items)
      → IsToken b',' t
      → IsSolid w
      → s.rest ≡ t ++ w
      → ((c : Source)
          → (skip_whitespace c).rest ≡ w
          → (d : Source) × (more c ≡ ok vs d) × (d.rest ≡ bs))
      → (d : Source) × (after_element more v s ≡ ok (cons v vs) d) × (d.rest ≡ bs)
  unfolding after_element ◌>>=◌
  after_element-more t w bs vs k solid h next =
      let (p, r) = token b',' t w s k refl solid h in
      let (d, e, q) = next (advance (skip_whitespace s)) r in (d, rw p (rw e refl), q)

pub array-nil :
    (elements : Source → Parsed Items) (s : Source) (t bs : Bytes)
    → IsClosing b']' t
    → s.rest ≡ t ++ bs
    → (c : Source) × (array elements s ≡ ok nil c) × (c.rest ≡ bs)
unfolding array
array-nil elements s t bs k h =
    let (p, r) = closing b']' t bs s k refl h in (advance (skip_whitespace s), rw p refl, r)

pub object-end :
    (entries : Source → Parsed Entries) (s : Source) (t bs : Bytes)
    → IsClosing b'}' t
    → s.rest ≡ t ++ bs
    → (c : Source) × (object_from entries s ≡ ok end c) × (c.rest ≡ bs)
unfolding object_from
object-end entries s t bs k h =
    let (p, r) = closing b'}' t bs s k refl h in (advance (skip_whitespace s), rw p refl, r)

module _ (more : Source → Parsed Entries) (k v : Value) (s : Source) where
  pub after_entry-end :
      (t bs : Bytes)
      → IsClosing b'}' t
      → s.rest ≡ t ++ bs
      → (c : Source) × (after_entry more k (some v) s ≡ ok (entry k v end) c) × (c.rest ≡ bs)
  unfolding after_entry keep_entry
  after_entry-end t bs close h =
      let (p, r) = closing b'}' t bs s close refl h in (advance (skip_whitespace s), rw p refl, r)

  pub after_entry-more :
      (t w bs : Bytes) (es : Entries)
      → IsToken b',' t
      → IsSolid w
      → s.rest ≡ t ++ w
      → ((c : Source)
          → (skip_whitespace c).rest ≡ w
          → (d : Source) × (more c ≡ ok es d) × (d.rest ≡ bs))
      → (d : Source) × (after_entry more k (some v) s ≡ ok (entry k v es) d) × (d.rest ≡ bs)
  unfolding after_entry keep_entry ◌>>=◌
  after_entry-more t w bs es comma solid h next =
      let (p, r) = token b',' t w s comma refl solid h in
      let (d, e, q) = next (advance (skip_whitespace s)) r in (d, rw p (rw e refl), q)

pub entry_value-colon :
    (value : Source → Parsed Value) (s : Source) (t w bs : Bytes) (v : Value)
    → IsToken b':' t
    → IsSolid w
    → s.rest ≡ t ++ w
    → ((c : Source)
        → (skip_whitespace c).rest ≡ w
        → (d : Source) × (value c ≡ ok v d) × (d.rest ≡ bs))
    → (d : Source) × (entry_value value s ≡ ok v d) × (d.rest ≡ bs)
unfolding entry_value
entry_value-colon value s t w bs v k solid h next =
    let (p, r) = token b':' t w s k refl solid h in
    let (d, e, q) = next (advance (skip_whitespace s)) r in (d, rw p e, q)

pub entry_key-quote :
    (s : Source) (t : Bytes)
    → (skip_whitespace s).rest ≡ b'"' ∷ t
    → entry_key s ≡ string (advance (skip_whitespace s))
unfolding entry_key
entry_key-quote s t h =
    let here : peek (skip_whitespace s) ≡ b'"' = ap first_or_end h in rw here refl

-- A container with something in it is read by its loop.
pub array-elements :
    (elements : Source → Parsed Items) (s : Source) (ws w : Bytes)
    → All IsBlank ws
    → IsSolid w
    → s.rest ≡ ws ++ w
    → (c : Source) × (array elements s ≡ elements c) × ((skip_whitespace c).rest ≡ w)
unfolding array
array-elements elements s ws w all (b, t, e, n) h =
    let r = skip-blanks ws w s all (b, t, e, n) h in
    let here : peek (skip_whitespace s) ≡ b = ap first_or_end (r ∙ e) in
    let unclosed : (b == b']') ≡ false = ground (arith, n) in
    (
      skip_whitespace s,
      rw here (rw unclosed refl),
      skip-blanks [] w (skip_whitespace s) tt (b, t, e, n) r,
    )

pub object_from-entries :
    (entries : Source → Parsed Entries) (s : Source) (ws w : Bytes)
    → All IsBlank ws
    → IsSolid w
    → s.rest ≡ ws ++ w
    → (c : Source) × (object_from entries s ≡ entries c) × ((skip_whitespace c).rest ≡ w)
unfolding object_from
object_from-entries entries s ws w all (b, t, e, n) h =
    let r = skip-blanks ws w s all (b, t, e, n) h in
    let here : peek (skip_whitespace s) ≡ b = ap first_or_end (r ∙ e) in
    let unclosed : (b == b'}') ≡ false = ground (arith, n) in
    (
      skip_whitespace s,
      rw here (rw unclosed refl),
      skip-blanks [] w (skip_whitespace s) tt (b, t, e, n) r,
    )
