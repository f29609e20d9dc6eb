-- ===== src/Reader/Lexes/Symbols.antt =====
-- src/reader/Lexer.cpp: `lexSymbolOrPunct` advances past the byte that it looked at.
use proto_clojure.Base.{
  ℕ, zero, suc, ◌≡◌, ◌<◌, refl, false, not, ◌&&◌, ◌||◌, Option, none, some, inl, inr, [], ◌∷◌,
  arith, ◌==◌, Bool-cases, length, Bytes,
}
use proto_clojure.Utf8.{decode_utf8}
use proto_clojure.Reader.Cursor.{
  Cursor, eof, is_nil, current, lookahead, is_digit, is_alpha, first_byte, advance, advance_by,
  take_chars, skip_whitespace_and_comments, symbol_char_length,
}
use proto_clojure.Reader.Cursor.Advances.{
  Advances, here, step, Advances-trans, Advances-advance_by, Advances-take_chars, Advances-skip,
}
use proto_clojure.Reader.Lexes.{Lexes, Lexes-if, Lexes-here}
use proto_clojure.Reader.Lexes.Strings.{lex_regex-Lexes}
use proto_clojure.Reader.Symbols.{
  take_symbol, symbolic_double, symbolic_token, lex_symbolic_value, lex_quote, lex_dispatch,
  unexpected, symbol_body_length, lex_symbol, lex_symbol_or_punct,
}
use proto_clojure.Reader.Token.{
  Double, error, symbol, quote, backtick, tilde, tilde_at, hash_l_brace, hash_l_paren,
  hash_underscore,
}

Advances-take_symbol : (c : Cursor) → Advances c (take_symbol c).1
Advances-take_symbol c = Advances-take_chars (length c.rest) _ [] c

symbolic_token-Lexes :
    {from : Cursor} (start : Cursor) (read : Bytes × Cursor) (d : Option Double)
    → Advances from read.1
    → Lexes from start (symbolic_token start read d)
unfolding symbolic_token
symbolic_token-Lexes start read none a = Lexes-here error _ start _ refl a
symbolic_token-Lexes start read (some d) a = record {
  ahead = a;
  placed = record {
    place = start;
    reached = here;
    line_is = refl;
    column_is = refl;
    not_end = refl;
  };
  before = λ s. Advances-trans s a;
}

lex_symbolic_value-Lexes : (c : Cursor) → Lexes (advance c) c (lex_symbolic_value c)
unfolding lex_symbolic_value
lex_symbolic_value-Lexes c =
    let from = skip_whitespace_and_comments (advance (advance c)) in
    let read = take_symbol from in
    let a =
      Advances-trans (step here)
        (Advances-trans (Advances-skip (advance (advance c))) (Advances-take_symbol from)) in
    Lexes-if (is_nil read.0 || first_byte read.0 == b':' || is_digit (first_byte read.0))
      (Lexes-here error _ c read.1 refl a) (symbolic_token-Lexes c read (symbolic_double read.0) a)

lex_quote-Lexes : (c : Cursor) → Lexes (advance c) c (lex_quote c)
unfolding lex_quote
lex_quote-Lexes c =
    let d = advance c in
    Lexes-if (current c == b'\'') (Lexes-here quote _ c d refl here) (
      Lexes-if (current c == b'`') (Lexes-here backtick _ c d refl here) (
        Lexes-if (not (eof d) && current d == b'@')
          (Lexes-here tilde_at _ c (advance d) refl (step here))
          (Lexes-here tilde _ c d refl here)))

lex_dispatch-Lexes : (c : Cursor) → Lexes (advance c) c (lex_dispatch c)
unfolding lex_dispatch
lex_dispatch-Lexes c =
    let la = lookahead c in
    let d = advance (advance c) in
    Lexes-if (la == b'#') (lex_symbolic_value-Lexes c) (
      Lexes-if (la == b'{') (Lexes-here hash_l_brace _ c d refl (step here)) (
        Lexes-if (la == b'"') (lex_regex-Lexes c) (
          Lexes-if (la == b'(') (Lexes-here hash_l_paren _ c d refl (step here)) (
            Lexes-if (la == b'_') (Lexes-here hash_underscore _ c d refl (step here)) (
              Lexes-if (la == b'\'') (Lexes-here error _ c d refl (step here)) (
                Lexes-if (is_alpha la)
                  (Lexes-here error _ c _ refl (Advances-take_symbol (advance c)))
                  (Lexes-here error _ c (advance c) refl here)))))))

-- A character of at least one byte is passed.
Advances-advance_by_pos : (n : ℕ) (c : Cursor) → 0 < n → Advances (advance c) (advance_by n c)
unfolding advance_by
Advances-advance_by_pos zero c h = absurd (omega arith)
Advances-advance_by_pos (suc n) c h = Advances-advance_by n (advance c)

decode_utf8_pos : (s : Bytes) {n cp : ℕ} → decode_utf8 s ≡ some (n, cp) → 0 < n
unfolding decode_utf8
decode_utf8_pos [] h = ground arith
decode_utf8_pos (b ∷ s) h = ground arith

unexpected-Lexes :
    (c : Cursor) (o : Option (ℕ × ℕ))
    → decode_utf8 c.rest ≡ o
    → Lexes (advance c) c (unexpected c o)
unfolding unexpected
unexpected-Lexes c none e = Lexes-here error _ c (advance c) refl here
unexpected-Lexes c (some (len, cp)) e =
    Lexes-here error _ c (advance_by len c) refl
      (Advances-advance_by_pos len c (decode_utf8_pos c.rest e))

-- The body of a symbol begins with the character that was found.
Advances-body :
    (fuel : ℕ) (c : Cursor)
    → eof c ≡ false
    → (symbol_char_length c.rest == 0) ≡ false
    → Advances (advance c) (take_chars (suc fuel) symbol_body_length [] c).1
unfolding take_chars symbol_body_length
Advances-body fuel c e n =
    rw (e, n)
      (Advances-trans (Advances-advance_by_pos (symbol_char_length c.rest) c (ground arith))
        (Advances-take_chars fuel symbol_body_length _ _))

lex_symbol-Lexes : (c : Cursor) → eof c ≡ false → Lexes (advance c) c (lex_symbol c)
unfolding lex_symbol
lex_symbol-Lexes c e = elim (Bool-cases (symbol_char_length c.rest == 0)) [
  | inl z ↦ rw z (unexpected-Lexes c (decode_utf8 c.rest) refl)
  | inr n ↦ rw n (Lexes-here symbol _ c _ refl (go c.rest refl n))
]
  where
    go :
        (bs : Bytes)
        → c.rest ≡ bs
        → (symbol_char_length c.rest == 0) ≡ false
        → Advances (advance c) (take_chars (length bs) symbol_body_length [] c).1
    go [] r n = cc (rw r at e)
    go (b ∷ bs) r n = Advances-body (length bs) c e n

pub lex_symbol_or_punct-Lexes :
    (c : Cursor) → eof c ≡ false → Lexes (advance c) c (lex_symbol_or_punct c)
unfolding lex_symbol_or_punct
lex_symbol_or_punct-Lexes c e =
    let b = current c in
    Lexes-if (b == b'\'' || b == b'`' || b == b'~') (lex_quote-Lexes c) (
      Lexes-if (b == b'^') (Lexes-here error _ c (advance c) refl here)
        (Lexes-if (b == b'#') (lex_dispatch-Lexes c) (lex_symbol-Lexes c e)))
