-- ===== src/Reader/Lexer/Stream.antt =====
-- src/reader/Lexer.cpp: the stream of tokens that repeated calls of `next` give.
use proto_clojure.Base.{
  ℕ, zero, suc, ◌+◌, ◌≤◌, ◌<◌, ◌≡◌, refl, true, false, inl, inr, List, [], ◌∷◌, ◌++◌, arith,
  Bool-cases, length, Bytes, All,
}
use proto_clojure.Reader.Cursor.{Cursor}
use proto_clojure.Reader.Cursor.Advances.{left}
use proto_clojure.Reader.Cursor.Position.{IsAt, Advances-IsAt, line_after, column_after}
use proto_clojure.Reader.Lexer.Progress.{next_scans, next_progress, next_ahead}
use proto_clojure.Reader.Lexer.{Lexer, make_lexer, next, tokens}
use proto_clojure.Reader.Token.{Token, is_end}

-- The last token is the end of the file, and no other is.
abbrev pub IsTerminated : List Token → Type 0
IsTerminated [] = ⊥
IsTerminated (t ∷ []) = is_end t.kind ≡ true
IsTerminated (t ∷ u ∷ ts) = (is_end t.kind ≡ false) × IsTerminated (u ∷ ts)

IsTerminated-cons :
    (t : Token) (ts : List Token) → is_end t.kind ≡ false → IsTerminated ts → IsTerminated (t ∷ ts)
IsTerminated-cons t [] e h = absurd h
IsTerminated-cons t (u ∷ ts) e h = (e, h)

tokens-IsTerminated_from :
    (fuel : ℕ) (l : Lexer)
    → l.has_peek ≡ false
    → left l.cursor < fuel
    → IsTerminated (tokens fuel l) × (length (tokens fuel l) ≤ left l.cursor + 1)
unfolding tokens
tokens-IsTerminated_from zero l p h = absurd (omega arith)
tokens-IsTerminated_from (suc fuel) l p h = elim (Bool-cases (is_end (next l).0.kind)) [
  | inl e ↦ rw (e, tokens) (e, omega arith)
  | inr e ↦
      let less = next_progress l p e in
      let (ended, count) =
        tokens-IsTerminated_from fuel (next l).1 (next_scans l p).2 (omega arith) in
      rw (e, tokens) (IsTerminated-cons (next l).0 _ e ended, omega arith)
]

-- Calling `next` on a source until it answers the end of the file, at most as often as the fuel
-- says, which is more than the source has bytes, takes at most one call more than the source has
-- bytes, and the last token, and no other, is the end of the file.
pub tokens-IsTerminated :
    (source : Bytes) (fuel : ℕ)
    → length source < fuel
    → IsTerminated (tokens fuel (make_lexer source))
      × (length (tokens fuel (make_lexer source)) ≤ length source + 1)
tokens-IsTerminated source fuel h = tokens-IsTerminated_from fuel (make_lexer source) refl h

-- A line and a column that count a part of the source from its beginning.
pub IsPosition : Bytes → ℕ → ℕ → Type 0
IsPosition source line column =
    (consumed : Bytes) × ((rest : Bytes) × (source ≡ consumed ++ rest))
    × (line ≡ line_after consumed)
    × (column ≡ column_after consumed)

IsAt-IsPosition : (source : Bytes) (c : Cursor) → IsAt source c → IsPosition source c.line c.column
unfolding IsPosition
IsAt-IsPosition source c (consumed, b) =
    (consumed, (c.rest, b.split), b.line_counts, b.column_counts)

abbrev pub ArePlaced : Bytes → List Token → Type 0
ArePlaced source = All (λ t. IsPosition source t.line t.column)

tokens-ArePlaced_from :
    (source : Bytes) (fuel : ℕ) (l : Lexer)
    → l.has_peek ≡ false
    → IsAt source l.cursor
    → ArePlaced source (tokens fuel l)
unfolding tokens
tokens-ArePlaced_from source zero l p a = tt
tokens-ArePlaced_from source (suc fuel) l p a =
    let (ahead, (place, reached, before, line_is, column_is)) = next_ahead l p in
    let at : IsPosition source (next l).0.line (next l).0.column =
      rw (line_is, column_is) (IsAt-IsPosition source place (Advances-IsAt source reached a)) in
    let rest =
      tokens-ArePlaced_from source fuel (next l).1 (next_scans l p).2
        (Advances-IsAt source ahead a) in
    elim (Bool-cases (is_end (next l).0.kind)) [
      | inl e ↦ rw (e, tokens) (at, tt)
      | inr e ↦ rw (e, tokens) (at, rest)
    ]

make_lexer-IsAt : (source : Bytes) → IsAt source (make_lexer source).cursor
make_lexer-IsAt source =
    ([], record { split = refl; pos_length = refl; line_counts = refl; column_counts = refl })

-- The line and the column of every token that calls of `next` on a source give count the newlines
-- and the characters of a beginning of the source.
pub tokens-ArePlaced :
    (source : Bytes) (fuel : ℕ) → ArePlaced source (tokens fuel (make_lexer source))
tokens-ArePlaced source fuel =
    tokens-ArePlaced_from source fuel (make_lexer source) refl (make_lexer-IsAt source)
