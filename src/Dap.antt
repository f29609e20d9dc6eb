-- ===== src/Dap.antt =====
-- src/dap/DapTransport.cpp: the framing of the debug adapter's messages. A stream is the list of the
-- bytes that are left of it; the JSON library is a parameter, its values, its parser and its printer.
pub mod Headers
pub mod RoundTrip
mod Tests
use proto_clojure.Base.{
  decimal, decimal_on, ℕ, zero, suc, ◌+◌, ◌-◌, ◌*◌, ◌/◌, ◌%◌, ◌^◌, Bool, true, false, Option, none,
  some, List, [], ◌∷◌, ◌++◌, ltb, leb, ◌==◌, ◌&&◌, ◌||◌, within, if◌then◌else◌, length, take, drop,
  Bytes, codes, ℤ, pos, negsuc, neg_ℕ,
}

-- Without a CR at its end.
abbrev pub strip_cr : Bytes → Bytes
strip_cr [] = []
strip_cr (c ∷ []) = if c == 13 then [] else c ∷ []
strip_cr (c ∷ d ∷ line) = c ∷ strip_cr (d ∷ line)

-- `readHeaderLine`, with the line and `any` so far: the line, and the stream after it.
unfoldable pub read_header_line : Bytes → Bool → Bytes → Option (Bytes × Bytes)
read_header_line line any [] = if any then some (line, []) else none
read_header_line line any (c ∷ input) =
    if c == 10 then some (strip_cr line, input) else read_header_line (line ++ c ∷ []) true input

abbrev pub to_lower : ℕ → ℕ
to_lower c = if within 65 90 c then c + 32 else c

-- `iequals`
unfoldable pub iequals : Bytes → Bytes → Bool
iequals [] [] = true
iequals (x ∷ a) (y ∷ b) = to_lower x == to_lower y && iequals a b
iequals _ _ = false

abbrev pub is_space : ℕ → Bool
is_space c = within 9 13 c || c == 32

abbrev pub trim_start : Bytes → Bytes
trim_start [] = []
trim_start (c ∷ s) = if is_space c then trim_start s else c ∷ s

abbrev pub cons_trimmed : ℕ → Bytes → Bytes
cons_trimmed c [] = if is_space c then [] else c ∷ []
cons_trimmed c (d ∷ s) = c ∷ d ∷ s

abbrev pub trim_end : Bytes → Bytes
trim_end [] = []
trim_end (c ∷ s) = cons_trimmed c (trim_end s)

-- `trim`
unfoldable pub trim : Bytes → Bytes
trim s = trim_end (trim_start s)

-- The texts on the two sides of the first colon.
abbrev pub split_colon : Bytes → Option (Bytes × Bytes)
split_colon [] = none
split_colon (c ∷ s) =
    if c == 58
    then some ([], s)
    else elim (split_colon s) [ none ↦ none | some (key, value) ↦ some (c ∷ key, value) ]

-- `std::stoll`: the digits at the front, without a digit an error.
abbrev pub digits_value : ℕ → Bytes → ℕ
digits_value acc [] = acc
digits_value acc (c ∷ s) = if within 48 57 c then digits_value (acc * 10 + (c - 48)) s else acc

abbrev pub starts_with_digit : Bytes → Bool
starts_with_digit [] = false
starts_with_digit (c ∷ s) = within 48 57 c

abbrev pub positive_value : Bytes → Option ℤ
positive_value s =
    if starts_with_digit s && ltb (digits_value 0 s) (2 ^ 63)
    then some (pos (digits_value 0 s))
    else none

abbrev pub negative_value : Bytes → Option ℤ
negative_value s =
    if starts_with_digit s && leb (digits_value 0 s) (2 ^ 63)
    then some (neg_ℕ (digits_value 0 s))
    else none

abbrev pub signed_value : Bytes → Option ℤ
signed_value [] = none
signed_value (c ∷ s) =
    if c == 45
    then negative_value s
    else if c == 43
    then positive_value s
    else positive_value (c ∷ s)

unfoldable pub stoll : Bytes → Option ℤ
stoll s = signed_value (trim_start s)

-- What a header line leaves in `contentLength`; `none` for a malformed length.
unfoldable pub header_field : Bytes → ℤ → Option ℤ
unfolding iequals trim stoll
header_field line len = elim (split_colon line) [
  | none ↦ some len
  | some (key, value) ↦
      if iequals (trim key) (codes "Content-Length") then stoll (trim value) else some len
]

-- How the loop over the header block ends: with the length that it leaves and the stream after the
-- blank line, or at the end of the stream or a malformed length. `out_of_fuel` is no outcome of the
-- code (Dap.Headers).
pub data HeaderBlock : Type 0 where
  found : ℤ → Bytes → HeaderBlock
  refused out_of_fuel : HeaderBlock

-- What a round of the loop does with a line: a blank one ends the header block.
unfoldable pub after_line : (ℤ → Bytes → HeaderBlock) → ℤ → Bytes → Bytes → HeaderBlock
unfolding header_field
after_line loop len [] rest = found len rest
after_line loop len (c ∷ line) rest = elim (header_field (c ∷ line) len) [
  | none ↦ refused
  | some now ↦ loop now rest
]

-- The loop over the header block. Each round reads a byte, so that the length of the input is fuel
-- enough.
unfoldable pub read_headers : ℕ → ℤ → Bytes → HeaderBlock
unfolding read_header_line after_line
read_headers zero len input = out_of_fuel
read_headers (suc fuel) len input = elim (read_header_line [] false input) [
  | none ↦ refused
  | some (line, rest) ↦ after_line (read_headers fuel) len line rest
]

module _ {Json : Type 0} (parse : Bytes → Option Json) (dump : Json → Bytes) where
  -- The body after a header block with this length; the buffer for it is taken to be allocated.
  unfoldable pub read_body : ℤ → Bytes → Option (Json × Bytes)
  read_body (negsuc n) input = none
  read_body (pos n) input =
      if ltb (length input) n
      then none
      else elim (parse (take n input)) [ none ↦ none | some message ↦ some (message, drop n input) ]

  -- `readMessage`: the message and the stream after it.
  unfoldable pub read_message : Bytes → Option (Json × Bytes)
  unfolding read_body read_headers
  read_message input = elim (read_headers (suc (length input)) (negsuc 0) input) [
    | found len rest ↦ read_body len rest
    | refused ↦ none
    | out_of_fuel ↦ none
  ]

-- `writeMessage`: what it appends to the output.
unfoldable pub write_message : {Json : Type 0} → (Json → Bytes) → Json → Bytes
unfolding decimal_on
write_message dump message =
    let body = dump message in
    codes "Content-Length: " ++ decimal (length body) ++ 13 ∷ 10 ∷ 13 ∷ 10 ∷ body
