-- ===== src/Json/Source.antt =====
-- src/runtime/Json.cpp: `Source` on a whole text, and the errors of the parser at its place.
use proto_clojure.Base.{
  ℕ, ◌+◌, Bool, ◌||◌, [], ◌∷◌, ◌++◌, ltb, leb, within, ◌==◌, if◌then◌else◌, Bytes, codes, decimal,
}
use proto_clojure.Utf8.{is_continuation}

-- The bytes left, and the line and column of the first of them. A column counts the bytes on the
-- line before it that begin a character.
pub record Source : Type 0 where
  pub rest : Bytes
  pub line : ℕ
  pub column : ℕ

abbrev pub make_source : Bytes → Source
make_source bytes = record { rest = bytes; line = 1; column = 1 }

-- Stands for the -1 of `peek` at the end of the input: it is no byte.
abbrev pub end_of_input : ℕ
end_of_input = 256

abbrev pub first_or_end : Bytes → ℕ
first_or_end [] = end_of_input
first_or_end (b ∷ bs) = b

abbrev pub peek : Source → ℕ
peek s = first_or_end s.rest

abbrev pub next_column : ℕ → ℕ → ℕ
next_column b column = if is_continuation b then column else column + 1

unfoldable pub advance_on : Bytes → Source → Source
advance_on [] s = s
advance_on (b ∷ bs) s = record { rest = bs; line = s.line; column = next_column b s.column }

abbrev pub advance : Source → Source
advance s = advance_on s.rest s

unfoldable pub newline : Source → Source
newline s = record s { line = s.line + 1; column = 1 }

-- The result of a reading function; fuel is never the outcome of the code (Json.Fuel).
pub data Parsed (A : Type 0) : Type 0 where
  ok : A → Source → Parsed A
  err : Bytes → Parsed A
  out_of_fuel : Parsed A

infixl 5 ◌>>=◌
unfoldable pub ◌>>=◌ : {A B : Type 0} → Parsed A → (A → Source → Parsed B) → Parsed B
ok a s >>= f = f a s
err e >>= f = err e
out_of_fuel >>= f = out_of_fuel

-- "line L, column C"
unfoldable pub place_text : Source → Bytes
place_text s = codes "line " ++ (decimal s.line ++ (codes ", column " ++ decimal s.column))

unfoldable pub fail : {A : Type 0} → Bytes → Source → Parsed A
unfolding place_text
fail what s = err (codes "JSON error: " ++ (what ++ (codes " at " ++ place_text s)))

unfoldable pub describe_current : Source → Bytes
describe_current s =
    let c = peek s in
    if c == end_of_input
    then codes "end of input"
    else if ltb c 0x20
    then codes "control character " ++ decimal c
    else if leb 0x80 c
    then codes "character beyond ASCII"
    else codes "character '" ++ c ∷ b'\'' ∷ []

abbrev pub is_space : ℕ → Bool
is_space c = c == b' ' || c == b'\t' || c == b'\r'

unfoldable pub skip_on : Bytes → Source → Source
unfolding newline
skip_on [] s = s
skip_on (b ∷ bs) s =
    let more = skip_on bs (if b == b'\n' then newline (advance s) else advance s) in
    if is_space b || b == b'\n' then more else s

unfoldable pub skip_whitespace : Source → Source
unfolding skip_on
skip_whitespace s = skip_on s.rest s

-- The bytes from here on for which the test holds are appended and skipped.
unfoldable pub take_run_on : (ℕ → Bool) → Bytes → Bytes → Source → Bytes × Source
take_run_on p out [] s = (out, s)
take_run_on p out (b ∷ bs) s =
    let more = take_run_on p (out ++ b ∷ []) bs (advance s) in if p b then more else (out, s)

abbrev pub take_run : (ℕ → Bool) → Bytes → Source → Bytes × Source
take_run p out s = take_run_on p out s.rest s

abbrev pub is_digit : ℕ → Bool
is_digit c = within b'0' b'9' c

abbrev pub is_letter : ℕ → Bool
is_letter c = within b'a' b'z' c || within b'A' b'Z' c
