-- ===== src/Reader/Lexer/Progress.antt =====
-- src/reader/Lexer.cpp: a call of `next` with no token peeked lexes one token from behind the
-- whitespace, or answers the end of the file.
use proto_clojure.Base.{
  ℕ, ◌<◌, ◌≡◌, refl, sym, ◌∙◌, Bool, true, false, Option, none, some, inl, inr, ◌↔◌, [], arith,
  ◌==◌, if_split, Bool-cases,
}
use proto_clojure.Reader.Cursor.{
  Cursor, eof, current, is_digit, advance, skip_whitespace_and_comments,
}
use proto_clojure.Reader.Cursor.Advances.{
  Advances, here, step, Advances-trans, Advances-left, left, left-advance, left_pos, Advances-skip,
}
use proto_clojure.Reader.Cursor.Ignored.{is_ignored, skip-is_ignored}
use proto_clojure.Reader.Lexer.{
  Lexer, is_sign, single_kind, lex_other, lex_from, lex_token, scan_token, next,
}
use proto_clojure.Reader.Lexes.{Lexes, Lexes-if, Lexes-start, Lexes-here}
use proto_clojure.Reader.Lexes.Numbers.{lex_number-Lexes, lex_number-Lexes_digit}
use proto_clojure.Reader.Lexes.Strings.{lex_string-Lexes}
use proto_clojure.Reader.Lexes.Symbols.{lex_symbol_or_punct-Lexes}
use proto_clojure.Reader.Token.{TokenKind, token_at, end_of_file, is_end}

lex_other-Lexes :
    (prev : TokenKind) (space : Bool) (c : Cursor)
    → eof c ≡ false
    → Lexes (advance c) c (lex_other prev space c)
unfolding lex_other
lex_other-Lexes prev space c e = Lexes-if (current c == b'"') (lex_string-Lexes c) (
    if_split (Lexes (advance c) c) (is_digit (current c)) (lex_number-Lexes_digit false c e) (λ _.
      Lexes-if (is_sign prev space c)
        (Lexes-start (step here) here (lex_number-Lexes true (advance c)))
        (lex_symbol_or_punct-Lexes c e)))

single_kind-not_end : (b : ℕ) {k : TokenKind} → single_kind b ≡ some k → is_end k ≡ false
unfolding single_kind
single_kind-not_end b h = ground arith

lex_from-Lexes :
    (prev : TokenKind) (space : Bool) (c : Cursor) (o : Option TokenKind)
    → single_kind (current c) ≡ o
    → eof c ≡ false
    → Lexes (advance c) c (lex_from prev space c o)
unfolding lex_from
lex_from-Lexes prev space c none s e = lex_other-Lexes prev space c e
lex_from-Lexes prev space c (some k) s e =
    Lexes-here k _ c (advance c) (single_kind-not_end (current c) s) here

lex_token-Lexes :
    (prev : TokenKind) (space : Bool) (c : Cursor)
    → eof c ≡ false
    → Lexes (advance c) c (lex_token prev space c)
unfolding lex_token
lex_token-Lexes prev space c e = rw e (lex_from-Lexes prev space c _ refl e)

abbrev behind_blanks : Cursor → Cursor
behind_blanks = skip_whitespace_and_comments

scan_token-Lexes :
    (prev : TokenKind) (c : Cursor)
    → eof (behind_blanks c) ≡ false
    → Lexes (advance (behind_blanks c)) (behind_blanks c) (scan_token prev c)
unfolding scan_token
scan_token-Lexes prev c e = lex_token-Lexes prev _ (behind_blanks c) e

scan_token_end :
    (prev : TokenKind) (c : Cursor)
    → eof (behind_blanks c) ≡ true
    → scan_token prev c
      ≡ (token_at end_of_file [] (behind_blanks c).line (behind_blanks c).column, behind_blanks c)
unfolding scan_token lex_token
scan_token_end prev c e = rw e

-- What a call of `next` does when no token is peeked: the token and the cursor are those of
-- `scan_token`.
pub next_scans :
    (l : Lexer)
    → l.has_peek ≡ false
    → ((next l).0 ≡ (scan_token l.prev_returned_kind l.cursor).0)
      × ((next l).1.cursor ≡ (scan_token l.prev_returned_kind l.cursor).1)
      × ((next l).1.has_peek ≡ false)
unfolding next
next_scans l h = (rw h, rw h, rw h)

-- The end of the file is answered where nothing is left behind what is skipped.
next_end_skip :
    (l : Lexer)
    → l.has_peek ≡ false
    → (is_end (next l).0.kind ≡ true) ↔ (eof (skip_whitespace_and_comments l.cursor) ≡ true)
next_end_skip l h =
    let prev = l.prev_returned_kind in
    let c = l.cursor in
    let (t, _, _) = next_scans l h in
    rw t (
      λ ended. elim (Bool-cases (eof (behind_blanks c))) [
        | inl e ↦ e
        | inr e ↦ cc (ended, (scan_token-Lexes prev c e).placed.not_end)
      ],
      λ e. rw (scan_token_end prev c e),
    )

-- With no token peeked, the token is the end of the file exactly where the bytes that are left
-- are blanks, tabs, returns, newlines, commas, and comments from `;` or `#!` to the end of the
-- line.
pub next_end_iff :
    (l : Lexer)
    → l.has_peek ≡ false
    → (is_end (next l).0.kind ≡ true) ↔ (is_ignored false l.cursor.rest ≡ true)
next_end_iff l h =
    let (to, from) = next_end_skip l h in
    let same = skip-is_ignored l.cursor in (λ e. sym same ∙ to e, λ e. from (same ∙ e))

-- With no token peeked, a token other than the end of the file takes at least a byte of the
-- source.
pub next_progress :
    (l : Lexer)
    → l.has_peek ≡ false
    → is_end (next l).0.kind ≡ false
    → left (next l).1.cursor < left l.cursor
next_progress l h going = elim (Bool-cases (eof (behind_blanks l.cursor))) [
  | inl e ↦ cc (going, (next_end_skip l h).1 e)
  | inr e ↦
      let b = behind_blanks l.cursor in
      let ahead = Advances-left (scan_token-Lexes l.prev_returned_kind l.cursor e).ahead in
      let (_, c, _) = next_scans l h in
      rw c
        (omega (arith, ahead, left-advance b, left_pos b e, Advances-left (Advances-skip l.cursor)))
]

-- With no token peeked, a call of `next` only advances, and places its token at a place that is
-- reached from the cursor before the call, and from which the cursor after it is reached, by
-- advancing.
pub next_ahead :
    (l : Lexer)
    → l.has_peek ≡ false
    → Advances l.cursor (next l).1.cursor
      × ((place : Cursor) × Advances l.cursor place
          × Advances place (next l).1.cursor
          × ((next l).0.line ≡ place.line)
          × ((next l).0.column ≡ place.column))
next_ahead l h =
    let (t, c, _) = next_scans l h in
    let blanks = Advances-skip l.cursor in
    rw (t, c)
      (elim (Bool-cases (eof (behind_blanks l.cursor))) [
        | inl e ↦
            rw (scan_token_end l.prev_returned_kind l.cursor e)
              (blanks, (behind_blanks l.cursor, blanks, here, refl, refl))
        | inr e ↦
            let lexed = scan_token-Lexes l.prev_returned_kind l.cursor e in
            let p = lexed.placed in
            (
              Advances-trans blanks (Advances-trans (step here) lexed.ahead),
              (
                p.place,
                Advances-trans blanks p.reached,
                lexed.before (step here),
                p.line_is,
                p.column_is,
              ),
            )
      ])
