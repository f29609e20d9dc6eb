-- ===== src/Json/RoundTrip/Chars.antt =====
-- src/runtime/Json.cpp: what the writer writes of a character, and that the parser's string loop
-- reads it.
use proto_clojure.Base.{
  ℕ, suc, ◌+◌, ◌-◌, ◌/◌, ◌%◌, ◌≤◌, ◌<◌, ◌≡◌, ◌⊎◌, inl, inr, refl, ap, sym, ◌∙◌, true, false, some,
  [], ◌∷◌, ◌++◌, append_assoc, append-nil, arith, ltb, leb, ◌==◌, Bytes, if◌then◌else◌, if_split,
  All,
}
use proto_clojure.Json.RoundTrip.Texts.{
  rest-advance, loop-plain, loop-backslash, loop-simple, hex4-escape,
}
use proto_clojure.Json.Source.{Source, peek, advance, ok, ◌>>=◌, end_of_input, first_or_end}
use proto_clojure.Json.Strings.{
  WriteOptions, hex_letter, hex_escape, ascii_text, escape_code_point, is_escaped,
}
use proto_clojure.Json.Texts.{
  is_plain, simple_escape, low_value, low_surrogate, code_point, push_code_point, escape_from,
  escape, string_loop,
}
use proto_clojure.Json.{Flavor}
use proto_clojure.Utf8.RoundTrip.{IsScalar}
use proto_clojure.Utf8.{append_utf8}

pub append_utf8-out : (out : Bytes) (cp : ℕ) → append_utf8 out cp ≡ out ++ append_utf8 [] cp
unfolding append_utf8
append_utf8-out out cp = ground arith

-- The digits behind `\u`.
abbrev hex_tail : Flavor → ℕ → Bytes
hex_tail flavor u =
    hex_letter flavor (u / 4096 % 16)
    ∷ hex_letter flavor (u / 256 % 16)
    ∷ hex_letter flavor (u / 16 % 16)
    ∷ hex_letter flavor (u % 16)
    ∷ []

hex_escape_lem :
    (flavor : Flavor) (u : ℕ) (bs : Bytes)
    → hex_escape flavor u ++ bs ≡ b'\\' ∷ b'u' ∷ (hex_tail flavor u ++ bs)
unfolding hex_escape
hex_escape_lem flavor u bs = refl

-- Where `\uXXXX` stands, the loop reads its code point.
escape-unicode :
    (out : Bytes) (s : Source) (u : ℕ) (flavor : Flavor) (bs : Bytes)
    → u < 65536
    → s.rest ≡ hex_escape flavor u ++ bs
    → (c : Source) × (escape out (advance s) ≡ (code_point u c >>= push_code_point out))
      × (c.rest ≡ bs)
escape-unicode out s u flavor bs l h =
    let h1 : (advance s).rest ≡ b'u' ∷ _ = rest-advance s b'\\' (h ∙ hex_escape_lem flavor u bs) in
    let h2 = rest-advance (advance s) b'u' h1 in
    let (c, e, r) =
      hex4-escape flavor u (advance (advance s)) bs l
        (ap (λ t. b'\\' ∷ b'u' ∷ t) h2 ∙ sym (hex_escape_lem flavor u bs)) in
    let here : peek (advance s) ≡ b'u' = ap first_or_end h1 in
    (c, unfold escape escape_from ◌>>=◌ simple_escape in rw here (rw e refl), r)

loop-unicode :
    (fuel : ℕ) (out : Bytes) (s : Source) (u : ℕ) (flavor : Flavor) (bs : Bytes)
    → u < 65536
    → (u < 0xD800) ⊎ (0xDFFF < u)
    → s.rest ≡ hex_escape flavor u ++ bs
    → (c : Source) × (string_loop (suc fuel) out s ≡ string_loop fuel (append_utf8 out u) c)
      × (c.rest ≡ bs)
loop-unicode fuel out s u flavor bs l n h =
    let (c, e, r) = escape-unicode out s u flavor bs l h in
    let simple : code_point u c ≡ ok u c = unfold code_point in ground arith in
    (
      c,
      loop-backslash fuel out s _ (h ∙ hex_escape_lem flavor u bs)
          ∙ ap (λ m. m >>= string_loop fuel) (e ∙ ap (λ m. m >>= push_code_point out) simple)
          ∙ (unfold ◌>>=◌ push_code_point in refl),
      r,
    )

loop-pair :
    (fuel : ℕ) (out : Bytes) (s : Source) (v : ℕ) (flavor : Flavor) (bs : Bytes)
    → v < 0x100000
    → s.rest
      ≡ hex_escape flavor (0xD800 + v / 1024) ++ (hex_escape flavor (0xDC00 + v % 1024) ++ bs)
    → (c : Source) × (string_loop (suc fuel) out s
        ≡ string_loop fuel (append_utf8 out (0x10000 + v)) c)
      × (c.rest ≡ bs)
loop-pair fuel out s v flavor bs l h =
    let (c, e, r) = escape-unicode out s (0xD800 + v / 1024) flavor _ (omega arith) h in
    let r0 : c.rest ≡ b'\\' ∷ _ = r ∙ hex_escape_lem flavor (0xDC00 + v % 1024) bs in
    let r1 : (advance c).rest ≡ b'u' ∷ _ = rest-advance c b'\\' r0 in
    let r2 = rest-advance (advance c) b'u' r1 in
    let (d, f, q) =
      hex4-escape flavor (0xDC00 + v % 1024) (advance (advance c)) bs (omega arith)
        (ap (λ t. b'\\' ∷ b'u' ∷ t) r2 ∙ sym (hex_escape_lem flavor (0xDC00 + v % 1024) bs)) in
    let here0 : peek c ≡ b'\\' = ap first_or_end r0 in
    let here1 : peek (advance c) ≡ b'u' = ap first_or_end r1 in
    let low : low_surrogate (0xD800 + v / 1024) c ≡ ok (0x10000 + v) d =
      unfold low_surrogate ◌>>=◌ in rw here0 (rw here1 (rw f (unfold low_value in ground arith))) in
    let pair : code_point (0xD800 + v / 1024) c ≡ low_surrogate (0xD800 + v / 1024) c =
      unfold code_point in ground arith in
    (
      d,
      loop-backslash fuel out s _ (h ∙ hex_escape_lem flavor (0xD800 + v / 1024) _)
          ∙ ap (λ m. m >>= string_loop fuel) (e ∙ ap (λ m. m >>= push_code_point out) (pair ∙ low))
          ∙ (unfold ◌>>=◌ push_code_point in refl),
      q,
    )

abbrev letter_of : ℕ → ℕ
letter_of c =
    if c == 8
    then b'b'
    else if c == 12
    then b'f'
    else if c == 10
    then b'n'
    else if c == 13
    then b'r'
    else if c == 9
    then b't'
    else c

ascii_kinds :
    (opts : WriteOptions) (c : ℕ)
    → c < 0x80
    → ((ascii_text opts c ≡ c ∷ []) × (is_plain c ≡ true))
      ⊎ ((ascii_text opts c ≡ b'\\' ∷ letter_of c ∷ [])
          × (simple_escape (letter_of c) ≡ some c)
          × ((letter_of c == end_of_input) ≡ false))
      ⊎ ((ascii_text opts c ≡ hex_escape opts.flavor c) × (c < 0x20))
unfolding ascii_text simple_escape
ascii_kinds opts c h = ground arith

-- What is written of a code point.
abbrev pub code_point_text : WriteOptions → ℕ → Bytes
code_point_text opts cp =
    if ltb cp 0x80
    then ascii_text opts cp
    else if is_escaped opts cp
    then escape_code_point opts.flavor cp
    else append_utf8 [] cp

-- The loop in front of `bs`, with `x` appended, and with at least `fuel` left.
abbrev pub Reads : ℕ → Bytes → Bytes → Source → Bytes → Type 0
Reads fuel out x s bs =
    (c : Source) × (k : ℕ) × (string_loop (suc fuel) out s ≡ string_loop k (out ++ x) c)
    × (c.rest ≡ bs)
    × (fuel ≤ k)

Reads-plain :
    (fuel : ℕ) (out : Bytes) (s : Source) (b : ℕ) (bs : Bytes)
    → is_plain b ≡ true
    → s.rest ≡ b ∷ bs
    → Reads fuel out (b ∷ []) s bs
Reads-plain fuel out s b bs e h =
    (advance s, suc fuel, loop-plain fuel out s b bs h e, rest-advance s b h, omega arith)

Reads-run :
    (fuel : ℕ) (out : Bytes) (s : Source) (run bs : Bytes)
    → All (λ b. is_plain b ≡ true) run
    → s.rest ≡ run ++ bs
    → Reads fuel out run s bs
Reads-run fuel out s [] bs all h =
    (s, suc fuel, ap (λ o. string_loop (suc fuel) o s) (sym (append-nil out)), h, omega arith)
Reads-run fuel out s (b ∷ run) bs all h =
    let (c, k, e, r, l) =
      Reads-run fuel (out ++ b ∷ []) (advance s) run bs all.1 (rest-advance s b h) in
    (
      c,
      k,
      loop-plain fuel out s b (run ++ bs) h all.0
          ∙ e
          ∙ ap (λ o. string_loop k o c) (append_assoc out (b ∷ []) run),
      r,
      l,
    )

Reads-unicode :
    (fuel : ℕ) (out : Bytes) (s : Source) (u : ℕ) (flavor : Flavor) (bs : Bytes)
    → u < 65536
    → (u < 0xD800) ⊎ (0xDFFF < u)
    → s.rest ≡ hex_escape flavor u ++ bs
    → Reads fuel out (append_utf8 [] u) s bs
Reads-unicode fuel out s u flavor bs l n h =
    let (c, e, r) = loop-unicode fuel out s u flavor bs l n h in
    (c, fuel, e ∙ ap (λ o. string_loop fuel o c) (append_utf8-out out u), r, omega arith)

Reads-escaped :
    (fuel : ℕ) (out : Bytes) (s : Source) (cp : ℕ) (flavor : Flavor) (bs : Bytes)
    → IsScalar cp
    → s.rest ≡ escape_code_point flavor cp ++ bs
    → Reads fuel out (append_utf8 [] cp) s bs
unfolding escape_code_point
Reads-escaped fuel out s cp flavor bs h =
    if_split (λ (t : Bytes). s.rest ≡ t ++ bs → Reads fuel out (append_utf8 [] cp) s bs)
      (leb 0x10000 cp)
      (λ e g.
        let v = cp - 0x10000 in
        let back : 0x10000 + v ≡ cp = ground arith in
        let (c, f, r) = loop-pair fuel out s v flavor bs (ground arith) (
          g
          ∙ append_assoc (hex_escape flavor (0xD800 + v / 1024))
              (hex_escape flavor (0xDC00 + v % 1024)) bs) in
        (
          c,
          fuel,
          f ∙ ap (λ o. string_loop fuel o c) (ap (append_utf8 out) back ∙ append_utf8-out out cp),
          r,
          omega arith,
        ))
      (λ e g. Reads-unicode fuel out s cp flavor bs (ground arith) (ground arith) g)

-- No byte of a longer sequence stops the fast path.
append_utf8-plain :
    (cp : ℕ) → (ltb cp 0x80) ≡ false → All (λ b. is_plain b ≡ true) (append_utf8 [] cp)
unfolding append_utf8
append_utf8-plain cp h = ground arith

Reads-ascii :
    (fuel : ℕ) (opts : WriteOptions) (out : Bytes) (s : Source) (cp : ℕ) (bs : Bytes)
    → cp < 0x80
    → s.rest ≡ ascii_text opts cp ++ bs
    → Reads fuel out (append_utf8 [] cp) s bs
Reads-ascii fuel opts out s cp bs l h =
    let single : append_utf8 [] cp ≡ cp ∷ [] = unfold append_utf8 in ground arith in
    elim (ascii_kinds opts cp l) [
      | inl (e, p) ↦ rw single (Reads-plain fuel out s cp bs p (h ∙ ap (λ t. t ++ bs) e))
      | inr (inl (e, p, n)) ↦
          let g : s.rest ≡ b'\\' ∷ letter_of cp ∷ bs = h ∙ ap (λ t. t ++ bs) e in
          rw single (
            advance (advance s),
            fuel,
            loop-simple fuel out s (letter_of cp) cp bs g p n,
            rest-advance (advance s) (letter_of cp) (rest-advance s b'\\' g),
            omega arith,
          )
      | inr (inr (e, p)) ↦
          Reads-unicode fuel out s cp opts.flavor bs (omega arith) (inl (omega arith))
            (h ∙ ap (λ t. t ++ bs) e)
    ]

-- The loop reads a scalar value in the form in which it is written.
pub Reads-code_point :
    (fuel : ℕ) (opts : WriteOptions) (out : Bytes) (s : Source) (cp : ℕ) (bs : Bytes)
    → IsScalar cp
    → s.rest ≡ code_point_text opts cp ++ bs
    → Reads fuel out (append_utf8 [] cp) s bs
Reads-code_point fuel opts out s cp bs h =
    let P = λ (t : Bytes). s.rest ≡ t ++ bs → Reads fuel out (append_utf8 [] cp) s bs in
    if_split P (ltb cp 0x80) (λ e. Reads-ascii fuel opts out s cp bs (ground arith))
      (λ e.
        if_split P (is_escaped opts cp) (λ _. Reads-escaped fuel out s cp opts.flavor bs h)
          (λ _. Reads-run fuel out s (append_utf8 [] cp) bs (append_utf8-plain cp e)))
