-- ===== src/Printer/RoundTrip.antt =====
-- src/runtime/Primitives.cpp and src/reader/Lexer.cpp: the lexer reads a printed string back.
use proto_clojure.Base.{
  ℕ, zero, suc, ◌+◌, ◌≤◌, ◌<◌, ◌≡◌, refl, ap, ◌∙◌, Bool, true, false, [], ◌∷◌, ◌++◌, append-nil,
  append_assoc, arith, ◌==◌, if◌then◌else◌, length, Bytes, ◌||◌, ◌≢◌,
}
use proto_clojure.Printer.{readable_byte, readable_bytes, append_readable_string}
use proto_clojure.Reader.Cursor.{
  Cursor, eof, current, advance, advance_on, skip_whitespace_and_comments, skip_loop,
}
use proto_clojure.Reader.Lexer.{Lexer, scan_token, lex_token, next}
use proto_clojure.Reader.Lexer.Progress.{next_scans}
use proto_clojure.Reader.Strings.{more, string_piece, string_loop, lex_string}
use proto_clojure.Reader.Token.{TokenKind, token_at, string}

-- The printed bytes with no accumulator, in front of what follows.
abbrev readable_front : Bytes → Bytes → Bytes
readable_front [] rest = rest
readable_front (c ∷ bytes) rest = readable_byte c ++ readable_front bytes rest

readable_bytes-front :
    (out bytes rest : Bytes) → readable_bytes out bytes ++ rest ≡ out ++ readable_front bytes rest
unfolding readable_bytes
readable_bytes-front out [] rest = refl
readable_bytes-front out (c ∷ bytes) rest =
    readable_bytes-front (out ++ readable_byte c) bytes rest ∙ append_assoc out _ _

append_readable_string-front :
    (bytes rest : Bytes)
    → append_readable_string [] bytes ++ rest ≡ b'"' ∷ readable_front bytes (b'"' ∷ rest)
unfolding append_readable_string
append_readable_string-front bytes rest =
    append_assoc (readable_bytes (b'"' ∷ []) bytes) (b'"' ∷ []) rest
    ∙ readable_bytes-front (b'"' ∷ []) bytes (b'"' ∷ rest)

rest-advance : (c : Cursor) (b : ℕ) {bs : Bytes} → c.rest ≡ b ∷ bs → (advance c).rest ≡ bs
unfolding advance
rest-advance c b h = rw (h, advance_on)

-- The bytes that are printed with a backslash.
abbrev escaped : ℕ → Bool
escaped b = b == b'"' || b == b'\\' || b == b'\n' || b == b'\t' || b == b'\r' || b == 12 || b == 8

abbrev behind_byte : ℕ → Cursor → Cursor
behind_byte b c = if escaped b then advance (advance c) else advance c

-- One round of the lexer's loop reads one printed byte.
string_piece-readable :
    (start : Cursor) (out : Bytes) (c : Cursor) (b : ℕ) (rest : Bytes)
    → rest ≢ []
    → c.rest ≡ readable_byte b ++ rest
    → (eof c ≡ false)
      × ((current c == b'"') ≡ false)
      × (string_piece start out c ≡ more (out ++ b ∷ []) (behind_byte b c))
      × ((behind_byte b c).rest ≡ rest)
unfolding readable_byte string_piece advance
string_piece-readable start out c b [] ne h = absurd (ne refl)
string_piece-readable start out c b (r ∷ rest) ne h = ground arith

length-readable_front :
    (bytes rest : Bytes) → length bytes + length rest ≤ length (readable_front bytes rest)
unfolding readable_byte
length-readable_front [] rest = omega arith
length-readable_front (b ∷ bytes) rest = ground (arith, length-readable_front bytes rest)

front-ne-nil : (bytes rest : Bytes) (b : ℕ) → readable_front bytes (b ∷ rest) ≢ []
front-ne-nil bytes rest b e =
    absurd (omega (arith, length-readable_front bytes (b ∷ rest), ap length e))

string_loop-readable :
    (bytes : Bytes) (fuel : ℕ) (start : Cursor) (out : Bytes) (c : Cursor) (rest : Bytes)
    → c.rest ≡ readable_front bytes (b'"' ∷ rest)
    → length bytes < fuel
    → (d : Cursor) × (string_loop fuel start out c
        ≡ (token_at string (out ++ bytes) start.line start.column, d))
      × (d.rest ≡ rest)
unfolding string_loop
string_loop-readable bytes zero start out c rest h f = absurd (omega arith)
string_loop-readable [] (suc fuel) start out c rest h f =
    let e : eof c ≡ false = rw h in
    let q : (current c == b'"') ≡ true = rw h in
    (advance c, rw (append-nil, e, q, string_loop), rest-advance c b'"' h)
string_loop-readable (b ∷ bytes) (suc fuel) start out c rest h f =
    let (e, q, p, r) =
      string_piece-readable start out c b (readable_front bytes (b'"' ∷ rest))
        (front-ne-nil bytes rest b'"') h in
    let (d, t, k) =
      string_loop-readable bytes fuel start (out ++ b ∷ []) (behind_byte b c) rest r
        (omega arith) in
    (d, rw (e, q, p, string_loop) (t ∙ rw append_assoc), k)

lex_string-readable :
    (bytes : Bytes) (c : Cursor) (rest : Bytes)
    → c.rest ≡ b'"' ∷ readable_front bytes (b'"' ∷ rest)
    → (d : Cursor) × (lex_string c ≡ (token_at string bytes c.line c.column, d)) × (d.rest ≡ rest)
unfolding lex_string
lex_string-readable bytes c rest h =
    string_loop-readable bytes (length c.rest) c [] (advance c) rest (rest-advance c b'"' h)
      (omega (arith, ap length h, length-readable_front bytes (b'"' ∷ rest)))

-- No blank and no comment begins with a quote.
skip-quote : (c : Cursor) (bs : Bytes) → c.rest ≡ b'"' ∷ bs → skip_whitespace_and_comments c ≡ c
unfolding skip_whitespace_and_comments
skip-quote c bs h = rw (h, skip_loop)

lex_token-quote :
    (prev : TokenKind) (space : Bool) (c : Cursor) (bs : Bytes)
    → c.rest ≡ b'"' ∷ bs
    → lex_token prev space c ≡ lex_string c
unfolding lex_token
lex_token-quote prev space c bs h = ground arith

scan_token-readable :
    (bytes : Bytes) (prev : TokenKind) (c : Cursor) (rest : Bytes)
    → c.rest ≡ append_readable_string [] bytes ++ rest
    → (d : Cursor) × (scan_token prev c ≡ (token_at string bytes c.line c.column, d))
      × (d.rest ≡ rest)
unfolding scan_token
scan_token-readable bytes prev c rest h =
    let q = h ∙ append_readable_string-front bytes rest in
    let (d, t, k) = lex_string-readable bytes c rest q in
    (d, rw (skip-quote c _ q) (lex_token-quote prev _ c _ q ∙ t), k)

-- The lexer, with no token peeked, reads a string in its readable form back as the string that
-- was printed, at the place of its first quote, whatever its bytes are and whatever follows, and
-- stops behind its closing quote.
pub next-append_readable_string :
    (l : Lexer) (bytes rest : Bytes)
    → l.has_peek ≡ false
    → l.cursor.rest ≡ append_readable_string [] bytes ++ rest
    → ((next l).0 ≡ token_at string bytes l.cursor.line l.cursor.column)
      × ((next l).1.cursor.rest ≡ rest)
next-append_readable_string l bytes rest p h =
    let (t, c, _) = next_scans l p in
    let (d, s, k) = scan_token-readable bytes l.prev_returned_kind l.cursor rest h in
    (t ∙ ap (λ r. r.0) s, ap (λ x. x.rest) c ∙ ap (λ r. r.1.rest) s ∙ k)
