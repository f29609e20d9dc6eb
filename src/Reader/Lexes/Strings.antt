-- ===== src/Reader/Lexes/Strings.antt =====
-- src/reader/Lexer.cpp: `lexString` and `lexRegex` advance past the opening quote.
use proto_clojure.Base.{
  ℕ, zero, suc, refl, not, ◌&&◌, Option, none, some, [], ◌∷◌, ◌++◌, ◌==◌, Option-cases, Bool-cases,
  if_cases, inl, inr, ◌-◌, ◌+◌, ◌*◌, ltb, within, if◌then◌else◌, length, Bytes, codes,
}
use proto_clojure.Utf8.{append_utf8}
use proto_clojure.Reader.Cursor.{Cursor, eof, current, lookahead, advance}
use proto_clojure.Reader.Cursor.Advances.{Advances, here, step, Advances-trans, Advances-advance}
use proto_clojure.Reader.Lexes.{Lexes, IsPlaced, Lexes-if, Lexes-here}
use proto_clojure.Reader.Strings.{
  hex_value, hex_digits, octal_digits, Piece, more, bad, bad_escape, unpaired, low_surrogate,
  unicode_escape, octal_escape, escape_letter, string_piece, after_piece, string_loop, lex_string,
  regex_loop, lex_regex,
}
use proto_clojure.Reader.Token.{Token, string, regex, error}

-- A piece ahead of `from`; a bad one is placed.
data IsPiece (from start : Cursor) : Piece → Type 0 where
  goes_on : {out : Bytes} {d : Cursor} → Advances from d → IsPiece from start (more out d)
  stops :
      {t : Token} {d : Cursor}
      → Advances from d
      → (p : IsPlaced start t) → Advances p.place d
      → IsPiece from start (bad t d)

bad_escape-IsPiece :
    {from start : Cursor} (at d : Cursor) (text : Bytes)
    → Advances from d
    → Advances start at
    → Advances at d
    → IsPiece from start (bad_escape at d text)
bad_escape-IsPiece at d text a b k =
    stops a (record { place = at; reached = b; line_is = refl; column_is = refl; not_end = refl }) k

Advances-hex_digits : (n v : ℕ) (c : Cursor) → Advances c (hex_digits n v c).1
unfolding hex_digits
Advances-hex_digits zero v c = here
Advances-hex_digits (suc n) v c =
    let ih = λ (d : ℕ). Advances-hex_digits n (v * 16 + d) (advance c) in
    elim (Option-cases (if eof c then none else hex_value (current c))) [
      | inl e ↦ rw (e, hex_digits) here
      | inr (d, e) ↦ rw (e, hex_digits) (Advances-trans (Advances-advance c) (ih d))
    ]

Advances-octal_digits : (n v : ℕ) (c : Cursor) → Advances c (octal_digits n v c).1
unfolding octal_digits
Advances-octal_digits zero v c = here
Advances-octal_digits (suc n) v c =
    if_cases (λ (r : ℕ × Cursor). Advances c r.1) (not (eof c) && within b'0' b'7' (current c))
      (Advances-trans (Advances-advance c)
        (Advances-octal_digits n (v * 8 + (current c - b'0')) (advance c)))
      here

module _ {from start : Cursor} (at : Cursor) (out : Bytes) (from_at : Advances from at)
    (start_at : Advances start at) where
  low_surrogate-IsPiece :
      (cp : ℕ) (r : Option ℕ × Cursor)
      → Advances at r.1
      → IsPiece from start (low_surrogate out at cp r)
  unfolding low_surrogate
  low_surrogate-IsPiece cp (none, c) a =
      bad_escape-IsPiece at c _ (Advances-trans from_at a) start_at a
  low_surrogate-IsPiece cp (some lo, c) a =
      if_cases (IsPiece from start) (within 0xDC00 0xDFFF lo) (goes_on (Advances-trans from_at a))
        (bad_escape-IsPiece at c _ (Advances-trans from_at a) start_at a)

  unicode_escape-IsPiece :
      (r : Option ℕ × Cursor) → Advances at r.1 → IsPiece from start (unicode_escape out at r)
  unfolding unicode_escape
  unicode_escape-IsPiece (none, c) a =
      bad_escape-IsPiece at c _ (Advances-trans from_at a) start_at a
  unicode_escape-IsPiece (some cp, c) a =
      if_cases (IsPiece from start) (within 0xD800 0xDBFF cp)
        (low_surrogate-IsPiece cp
          (if not (eof c) && current c == b'\\' && lookahead c == b'u'
            then hex_digits 4 0 (advance (advance c))
            else (none, c))
          (if_cases (λ (r : Option ℕ × Cursor). Advances at r.1)
            (not (eof c) && current c == b'\\' && lookahead c == b'u')
            {x = hex_digits 4 0 (advance (advance c))} {y = (none, c)}
            (Advances-trans (step (step a)) (Advances-hex_digits 4 0 (advance (advance c)))) a))
        (if_cases (IsPiece from start) (within 0xDC00 0xDFFF cp)
          (bad_escape-IsPiece at c unpaired (Advances-trans from_at a) start_at a)
          (goes_on {out = append_utf8 out cp} (Advances-trans from_at a)))

  octal_escape-IsPiece :
      (r : ℕ × Cursor) → Advances at r.1 → IsPiece from start (octal_escape out at r)
  unfolding octal_escape
  octal_escape-IsPiece (v, c) a =
      if_cases (IsPiece from start) (ltb 255 v)
        (bad_escape-IsPiece at c _ (Advances-trans from_at a) start_at a)
        (goes_on (Advances-trans from_at a))

  escape_letter-IsPiece : (o : Option ℕ) → IsPiece from start (escape_letter out at o)
  unfolding escape_letter
  escape_letter-IsPiece (some b) = goes_on (step from_at)
  escape_letter-IsPiece none =
      if_cases (IsPiece from start) (current at == b'u')
        (unicode_escape-IsPiece (hex_digits 4 0 (advance at))
          (Advances-trans (step here) (Advances-hex_digits 4 0 (advance at))))
        (if_cases (IsPiece from start) (within b'0' b'7' (current at))
          (octal_escape-IsPiece (octal_digits 3 0 at) (Advances-octal_digits 3 0 at))
          (bad_escape-IsPiece at at (codes "Unsupported escape character: \\" ++ current at ∷ [])
            from_at start_at here))

-- A round of the loop advances.
string_piece-IsPiece :
    {start c : Cursor} (out : Bytes)
    → Advances start c
    → IsPiece (advance c) start (string_piece start out c)
unfolding string_piece
string_piece-IsPiece {start} {c} out a =
    if_cases (IsPiece (advance c) start) (current c == b'\\')
      (if_cases (IsPiece (advance c) start) (eof (advance c))
        (bad_escape-IsPiece start (advance c) _ here here (step a))
        (escape_letter-IsPiece (advance c) out here (step a) _))
      (goes_on here)

IsPiece-from : {f g s : Cursor} {p : Piece} → Advances f g → IsPiece g s p → IsPiece f s p
IsPiece-from a (goes_on b) = goes_on (Advances-trans a b)
IsPiece-from a (stops b p k) = stops (Advances-trans a b) p k

after_piece-Lexes :
    {from start : Cursor} (loop : Bytes → Cursor → Token × Cursor) {p : Piece}
    → IsPiece from start p
    → ((out : Bytes) (d : Cursor) → Advances from d → Lexes from start (loop out d))
    → Lexes from start (after_piece loop p)
unfolding after_piece
after_piece-Lexes loop (goes_on {out} {d} a) h = h out d a
after_piece-Lexes loop (stops a p k) h = record { ahead = a; placed = p; before = λ s. k }

string_loop-Lexes :
    {from start : Cursor} (fuel : ℕ) (out : Bytes) (c : Cursor)
    → Advances start from
    → Advances from c
    → Lexes from start (string_loop fuel start out c)
unfolding string_loop
string_loop-Lexes {start} zero out c b a = Lexes-here error _ start c refl a
string_loop-Lexes {from} {start} (suc fuel) out c b a = elim (Bool-cases (eof c)) [
  | inl e ↦ rw (e, string_loop) (Lexes-here error _ start c refl a)
  | inr e ↦ elim (Bool-cases (current c == b'"')) [
    | inl q ↦ rw (e, q, string_loop) (Lexes-here string out start (advance c) refl (step a))
    | inr q ↦
        rw (e, q, string_loop)
          (after_piece-Lexes (string_loop fuel start)
            (IsPiece-from (step a) (string_piece-IsPiece out (Advances-trans b a)))
            (λ out' d k. string_loop-Lexes fuel out' d b k))
  ]
]

pub lex_string-Lexes : (c : Cursor) → Lexes (advance c) c (lex_string c)
unfolding lex_string
lex_string-Lexes c = string_loop-Lexes (length c.rest) [] (advance c) (step here) here

regex_loop-Lexes :
    {from start : Cursor} (fuel : ℕ) (out : Bytes) (c : Cursor)
    → Advances from c
    → Lexes from start (regex_loop fuel start out c)
unfolding regex_loop
regex_loop-Lexes {start} zero out c a = Lexes-here error _ start c refl a
regex_loop-Lexes {start} (suc fuel) out c a = Lexes-if (eof c) (Lexes-here error _ start c refl a) (
    Lexes-if (current c == b'"') (Lexes-here regex out start (advance c) refl (step a)) (
      Lexes-if (current c == b'\\')
        (Lexes-if (eof (advance c)) (Lexes-here error _ start (advance c) refl (step a)) (
          regex_loop-Lexes fuel (out ++ b'\\' ∷ current (advance c) ∷ []) (advance (advance c))
            (step (step a))))
        (regex_loop-Lexes fuel (out ++ current c ∷ []) (advance c) (step a))))

pub lex_regex-Lexes : (c : Cursor) → Lexes (advance c) c (lex_regex c)
unfolding lex_regex
lex_regex-Lexes c = regex_loop-Lexes (length c.rest) [] (advance (advance c)) (step here)
