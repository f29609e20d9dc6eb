-- ===== src/Reader/Cursor/Position.antt =====
-- src/reader/Lexer.cpp, `advance`: the line and the column count what was consumed.
use proto_clojure.Base.{
  ℕ, ◌+◌, ◌≡◌, refl, [], ◌∷◌, ◌++◌, append_assoc, arith, ◌==◌, if◌then◌else◌, length, length-append,
  Bytes, ap, sym, ◌∙◌,
}
use proto_clojure.Utf8.{is_continuation}
use proto_clojure.Reader.Cursor.{Cursor, advance, advance_on}
use proto_clojure.Reader.Cursor.Advances.{Advances, here, step}

-- One more than the newlines.
abbrev pub line_after : Bytes → ℕ
line_after [] = 1
line_after (b ∷ bs) = if b == b'\n' then line_after bs + 1 else line_after bs

-- The bytes behind the last newline.
abbrev pub last_line : Bytes → Bytes → Bytes
last_line line [] = line
last_line line (b ∷ bs) = last_line (if b == b'\n' then [] else line ++ b ∷ []) bs

-- The characters, each counted at its first byte.
abbrev pub count_characters : Bytes → ℕ
count_characters [] = 0
count_characters (b ∷ bs) =
    if is_continuation b then count_characters bs else count_characters bs + 1

abbrev pub column_after : Bytes → ℕ
column_after bs = count_characters (last_line [] bs) + 1

-- The cursor stands in `source` behind `consumed`.
pub record Behind (source consumed : Bytes) (c : Cursor) : Type 0 where
  pub split : source ≡ consumed ++ c.rest
  pub pos_length : c.pos ≡ length consumed
  pub line_counts : c.line ≡ line_after consumed
  pub column_counts : c.column ≡ column_after consumed

abbrev pub IsAt : Bytes → Cursor → Type 0
IsAt source c = (consumed : Bytes) × Behind source consumed c

line_after-concat :
    (bs : Bytes) (b : ℕ)
    → line_after (bs ++ b ∷ []) ≡ (if b == b'\n' then line_after bs + 1 else line_after bs)
line_after-concat [] b = refl
line_after-concat (x ∷ bs) b = ground (arith, line_after-concat bs b)

last_line-concat :
    (bs line : Bytes) (b : ℕ)
    → last_line line (bs ++ b ∷ []) ≡ (if b == b'\n' then [] else last_line line bs ++ b ∷ [])
last_line-concat [] line b = refl
last_line-concat (x ∷ bs) line b = last_line-concat bs (if x == b'\n' then [] else line ++ x ∷ []) b

count-concat :
    (bs : Bytes) (b : ℕ)
    → count_characters (bs ++ b ∷ [])
      ≡ (if is_continuation b then count_characters bs else count_characters bs + 1)
count-concat [] b = refl
count-concat (x ∷ bs) b = ground (arith, count-concat bs b)

advance_on-Behind :
    (source consumed bs : Bytes) (c : Cursor)
    → c.rest ≡ bs
    → Behind source consumed c
    → IsAt source (advance_on bs c)
unfolding advance_on
advance_on-Behind source consumed [] c e h = (consumed, h)
advance_on-Behind source consumed (b ∷ bs) c e h = (
  consumed ++ b ∷ [],
  record {
    split = h.split ∙ ap (λ r. consumed ++ r) e ∙ sym (append_assoc consumed (b ∷ []) bs);
    pos_length = omega (arith, h.pos_length, length-append consumed (b ∷ []));
    line_counts = ground (arith, line_after-concat consumed b);
    column_counts =
        ground (arith, last_line-concat consumed [] b, count-concat (last_line [] consumed) b);
  },
)

pub advance-IsAt : (source : Bytes) {c : Cursor} → IsAt source c → IsAt source (advance c)
unfolding advance
advance-IsAt source {c} (consumed, h) = advance_on-Behind source consumed c.rest c refl h

pub Advances-IsAt : {c d : Cursor} (source : Bytes) → Advances c d → IsAt source c → IsAt source d
Advances-IsAt source here h = h
Advances-IsAt source (step p) h = advance-IsAt source (Advances-IsAt source p h)
