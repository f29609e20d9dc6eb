-- ===== src/Reader/Lexer/Peek.antt =====
-- src/reader/Lexer.h: the contract of `peek`.
use proto_clojure.Base.{◌≡◌, false}
use proto_clojure.Reader.Lexer.{Lexer, next, peek}

-- The lexers with the same behaviour: equal but for a token that is no longer held.
pub record Same (l m : Lexer) : Type 0 where
  pub cursor_is : l.cursor ≡ m.cursor
  pub has_peek_is : l.has_peek ≡ m.has_peek
  pub prev_is : l.prev_returned_kind ≡ m.prev_returned_kind

-- With no token peeked: behind a `peek`, a second `peek` gives the same token and changes
-- nothing, and `next` gives the token that `next` alone gives and leaves the cursor, the absence
-- of a peeked token and the previous kind as it does.
pub peek-next :
    (l : Lexer)
    → l.has_peek ≡ false
    → (peek (peek l).1 ≡ peek l)
      × ((next (peek l).1).0 ≡ (next l).0)
      × Same (next (peek l).1).1 (next l).1
unfolding peek next
peek-next l h = (rw h, rw h, record { cursor_is = rw h; has_peek_is = rw h; prev_is = rw h })
