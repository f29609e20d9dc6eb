-- ===== src/Reader/Lexes.antt =====
-- src/reader/Lexer.cpp: what every routine that lexes a token keeps to: it only advances, it
-- places the token where it has been, and the token is not the end of the file.
pub mod Numbers
pub mod Strings
pub mod Symbols
use proto_clojure.Base.{ℕ, ◌≡◌, refl, Bool, true, false, if◌then◌else◌, Bytes}
use proto_clojure.Reader.Cursor.{Cursor, advance}
use proto_clojure.Reader.Cursor.Advances.{Advances, here, step, Advances-trans}
use proto_clojure.Reader.Token.{TokenKind, Token, token_at, is_end}

-- The token stands at a place reached from `start`.
pub record IsPlaced (start : Cursor) (t : Token) : Type 0 where
  pub place : Cursor
  pub reached : Advances start place
  pub line_is : t.line ≡ place.line
  pub column_is : t.column ≡ place.column
  pub not_end : is_end t.kind ≡ false

-- A token and the cursor behind it: the cursor is reached from `from`, and, where `start` reaches
-- `from`, from the token's place.
pub record Lexes (from start : Cursor) (r : Token × Cursor) : Type 0 where
  pub ahead : Advances from r.1
  pub placed : IsPlaced start r.0
  pub before : Advances start from → Advances placed.place r.1

pub Lexes-if :
    {from start : Cursor} (b : Bool) {x y : Token × Cursor}
    → Lexes from start x
    → Lexes from start y
    → Lexes from start (if b then x else y)
Lexes-if true p q = p
Lexes-if false p q = q

-- A token of the kind at the start itself.
pub Lexes-here :
    {from : Cursor} (kind : TokenKind) (text : Bytes) (start d : Cursor)
    → is_end kind ≡ false
    → Advances from d
    → Lexes from start (token_at kind text start.line start.column, d)
Lexes-here kind text start d k a = record {
  ahead = a;
  placed = record { place = start; reached = here; line_is = refl; column_is = refl; not_end = k };
  before = λ s. Advances-trans s a;
}

pub Lexes-from :
    {from from' start : Cursor} {r : Token × Cursor}
    → Advances from from'
    → Lexes from' start r
    → Lexes from start r
Lexes-from a l = record {
  ahead = Advances-trans a l.ahead;
  placed = l.placed;
  before = λ s. l.before (Advances-trans s a);
}

pub IsPlaced-from : {s s' : Cursor} {t : Token} → Advances s s' → IsPlaced s' t → IsPlaced s t
IsPlaced-from a p = record {
  place = p.place;
  reached = Advances-trans a p.reached;
  line_is = p.line_is;
  column_is = p.column_is;
  not_end = p.not_end;
}

pub Lexes-start :
    {from start start' : Cursor} {r : Token × Cursor}
    → Advances start start'
    → Advances start' from
    → Lexes from start' r
    → Lexes from start r
unfolding IsPlaced-from
Lexes-start a b l = record {
  ahead = l.ahead;
  placed = IsPlaced-from a l.placed;
  before = λ s. l.before b;
}
