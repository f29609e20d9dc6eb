-- ===== src/Json/RoundTrip/Strings.antt =====
-- src/runtime/Json.cpp: `Parser::string` reads what `Writer::string` writes of valid UTF-8.
use proto_clojure.Base.{
  ℕ, zero, suc, ◌-◌, ◌≤◌, ◌<◌, ◌≡◌, inl, inr, refl, ap, sym, ◌∙◌, true, false, not, ◌&&◌, some,
  List, [], ◌∷◌, ◌++◌, append_assoc, append-nil, arith, ltb, length, drop, take-length_append,
  Bool-cases, length-append, Bytes, if◌then◌else◌, if_split, All,
}
use proto_clojure.Json.RoundTrip.Chars.{code_point_text, Reads-code_point}
use proto_clojure.Json.RoundTrip.Texts.{rest-advance, loop-quote}
use proto_clojure.Json.Source.{Source, advance, ok}
use proto_clojure.Json.Strings.{
  WriteOptions, hex_escape, ascii_text, lead, decode_sequence, escape_code_point, is_escaped,
  sequence_text, char_text, chars_text, string_text,
}
use proto_clojure.Json.Texts.{string_loop, string}
use proto_clojure.Utf8.RoundTrip.{IsScalar}
use proto_clojure.Utf8.{append_utf8, continue_utf8}

-- The UTF-8 of a sequence of code points.
abbrev pub encode : List ℕ → Bytes
encode [] = []
encode (cp ∷ cps) = append_utf8 [] cp ++ encode cps

decode_sequence-append :
    (cp a : ℕ) (bs rest : Bytes)
    → IsScalar cp
    → ltb cp 0x80 ≡ false
    → append_utf8 [] cp ≡ a ∷ bs
    → (decode_sequence a (bs ++ rest) ≡ some (suc (length bs), cp)) × (ltb a 0x80 ≡ false)
unfolding decode_sequence lead continue_utf8 append_utf8
decode_sequence-append cp a bs rest h l e = ground arith

chars_text-skip :
    (opts : WriteOptions) (bs rest : Bytes)
    → chars_text opts (length bs) (bs ++ rest) ≡ chars_text opts 0 rest
unfolding chars_text
chars_text-skip opts [] rest = refl
chars_text-skip opts (b ∷ bs) rest = chars_text-skip opts bs rest

-- Bytes beyond ASCII are copied where nothing asks for more.
chars_text-copy :
    (opts : WriteOptions) (bs rest : Bytes)
    → (not opts.escape_non_ascii && not opts.escape_js_separators) ≡ true
    → All (λ b. ltb b 0x80 ≡ false) bs
    → chars_text opts 0 (bs ++ rest) ≡ bs ++ chars_text opts 0 rest
unfolding chars_text char_text
chars_text-copy opts [] rest e all = refl
chars_text-copy opts (b ∷ bs) rest e all =
    rw (all.0, e) (ap (λ t. b ∷ t) (chars_text-copy opts bs rest e all.1))

append_utf8-high :
    (cp : ℕ) → ltb cp 0x80 ≡ false → All (λ b. ltb b 0x80 ≡ false) (append_utf8 [] cp)
unfolding append_utf8
append_utf8-high cp h = ground arith

-- A sequence is decoded, and written whole or escaped.
chars_text-sequence :
    (opts : WriteOptions) (cp a : ℕ) (bs rest : Bytes)
    → IsScalar cp
    → ltb cp 0x80 ≡ false
    → (not opts.escape_non_ascii && not opts.escape_js_separators) ≡ false
    → append_utf8 [] cp ≡ a ∷ bs
    → chars_text opts 0 (a ∷ (bs ++ rest))
      ≡ (if is_escaped opts cp then escape_code_point opts.flavor cp else a ∷ bs)
        ++ chars_text opts 0 rest
unfolding chars_text char_text sequence_text
chars_text-sequence opts cp a bs rest h l f e =
    let (d, high) = decode_sequence-append cp a bs rest h l e in
    let cut = take-length_append bs rest in
    let n : suc (length bs) - 1 ≡ length bs = omega arith in
    rw (high, f) (rw (d, sequence_text) (rw (cut, n, chars_text-skip opts bs rest) refl))

cons_of : (t : Bytes) → 0 < length t → (a : ℕ) × (bs : Bytes) × (t ≡ a ∷ bs)
cons_of [] h = elim h [ ]
cons_of (a ∷ bs) h = (a, bs, refl)

append_utf8-cons : (cp : ℕ) → (a : ℕ) × (bs : Bytes) × (append_utf8 [] cp ≡ a ∷ bs)
append_utf8-cons cp = cons_of (append_utf8 [] cp) (unfold append_utf8 in ground arith)

no_escape :
    (opts : WriteOptions) (cp : ℕ)
    → (not opts.escape_non_ascii && not opts.escape_js_separators) ≡ true
    → is_escaped opts cp ≡ false
no_escape opts cp h = ground arith

-- What the loop writes of the encoding of a scalar value.
chars_text-code_point :
    (opts : WriteOptions) (cp : ℕ) (rest : Bytes)
    → IsScalar cp
    → chars_text opts 0 (append_utf8 [] cp ++ rest)
      ≡ code_point_text opts cp ++ chars_text opts 0 rest
chars_text-code_point opts cp rest h =
    if_split
      (λ (t : Bytes). chars_text opts 0 (append_utf8 [] cp ++ rest) ≡ t ++ chars_text opts 0 rest)
      (ltb cp 0x80) (λ e. unfold append_utf8 chars_text char_text in rw e (rw e refl))
      (λ e. elim (Bool-cases (not opts.escape_non_ascii && not opts.escape_js_separators)) [
        | inl f ↦
            chars_text-copy opts (append_utf8 [] cp) rest f (append_utf8-high cp e)
            ∙ rw (no_escape opts cp f) refl
        | inr f ↦
            let (a, bs, g) = append_utf8-cons cp in
            ap (λ t. chars_text opts 0 (t ++ rest)) g
            ∙ chars_text-sequence opts cp a bs rest h e f g
            ∙ ap
                (λ t.
                  (if is_escaped opts cp then escape_code_point opts.flavor cp else t)
                  ++ chars_text opts 0 rest)
                (sym g)
      ])

chars_text-cons :
    (opts : WriteOptions) (cp : ℕ) (cps : List ℕ) (bs : Bytes)
    → IsScalar cp
    → chars_text opts 0 (encode (cp ∷ cps)) ++ bs
      ≡ code_point_text opts cp ++ (chars_text opts 0 (encode cps) ++ bs)
chars_text-cons opts cp cps bs h =
    ap (λ t. t ++ bs) (chars_text-code_point opts cp (encode cps) h)
    ∙ append_assoc (code_point_text opts cp) (chars_text opts 0 (encode cps)) bs

code_point_text-length : (opts : WriteOptions) (cp : ℕ) → 0 < length (code_point_text opts cp)
unfolding ascii_text hex_escape escape_code_point append_utf8
code_point_text-length opts cp = ground arith

chars_text-length :
    (opts : WriteOptions) (cps : List ℕ)
    → All IsScalar cps
    → length cps ≤ length (chars_text opts 0 (encode cps))
chars_text-length opts [] all = omega arith
chars_text-length opts (cp ∷ cps) all =
    let t = chars_text opts 0 (encode cps) in
    omega (
      arith,
      ap length (chars_text-code_point opts cp (encode cps) all.0),
      code_point_text-length opts cp,
      length-append (code_point_text opts cp) t,
      chars_text-length opts cps all.1,
    )

string_loop-chars :
    (opts : WriteOptions) (cps : List ℕ) (fuel : ℕ) (out : Bytes) (s : Source) (bs : Bytes)
    → All IsScalar cps
    → length cps < fuel
    → s.rest ≡ chars_text opts 0 (encode cps) ++ b'"' ∷ bs
    → (c : Source) × (string_loop fuel out s ≡ ok (out ++ encode cps) c) × (c.rest ≡ bs)
string_loop-chars opts cps zero out s bs all l h = elim l [ ]
string_loop-chars opts [] (suc fuel) out s bs all l h =
    let g : s.rest ≡ b'"' ∷ bs = h ∙ (unfold chars_text in refl) in
    (
      advance s,
      loop-quote fuel out s bs g ∙ ap (λ o. ok o (advance s)) (sym (append-nil out)),
      rest-advance s b'"' g,
    )
string_loop-chars opts (cp ∷ cps) (suc fuel) out s bs all l h =
    let (c, k, e, r, m) =
      Reads-code_point fuel opts out s cp (chars_text opts 0 (encode cps) ++ b'"' ∷ bs) all.0
        (h ∙ chars_text-cons opts cp cps (b'"' ∷ bs) all.0) in
    let (d, f, q) =
      string_loop-chars opts cps k (out ++ append_utf8 [] cp) c bs all.1 (omega arith) r in
    (d, e ∙ f ∙ ap (λ o. ok o d) (append_assoc out (append_utf8 [] cp) (encode cps)), q)

-- Behind the opening quote of a written text, the parser reads the text, and stops behind the
-- closing quote.
pub string-string_text :
    (opts : WriteOptions) (cps : List ℕ) (s : Source) (bs : Bytes)
    → All IsScalar cps
    → b'"' ∷ s.rest ≡ string_text opts (encode cps) ++ bs
    → (c : Source) × (string s ≡ ok (encode cps) c) × (c.rest ≡ bs)
string-string_text opts cps s bs all h =
    let t = chars_text opts 0 (encode cps) in
    let g : s.rest ≡ t ++ b'"' ∷ bs =
      ap (drop 1) h ∙ (unfold string_text in append_assoc t (b'"' ∷ []) bs) in
    string_loop-chars opts cps (suc (length s.rest)) [] s bs all
      (omega (arith, ap length g, length-append t (b'"' ∷ bs), chars_text-length opts cps all)) g
