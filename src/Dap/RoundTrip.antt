-- ===== src/Dap/RoundTrip.antt =====
-- src/dap/DapTransport.cpp: `readMessage` reads what `writeMessage` writes.
use proto_clojure.Base.{
  decimal, decimal_on, decimal_on-digits, IsDigit, ℕ, zero, suc, ◌+◌, ◌-◌, ◌*◌, ◌/◌, ◌%◌, ◌^◌, ◌<◌,
  ◌≡◌, ◌≢◌, refl, ap, sym, ◌∙◌, Bool, true, false, Option, some, [], ◌∷◌, ◌++◌, arith, append_assoc,
  append-nil, ltb, ◌==◌, length, length-append, take-length_append, drop-length_append, Bytes,
  codes, pos, negsuc, All, le→ltb, ltb→lt, if_split,
}
use proto_clojure.Dap.Headers.{read_headers-fuel}
use proto_clojure.Dap.{
  strip_cr, read_header_line, trim_start, trim_end, trim, digits_value, starts_with_digit, stoll,
  header_field, after_line, read_headers, read_body, read_message, write_message, iequals, found,
}

digits_value-append :
    (acc d : ℕ) (ds : Bytes)
    → All IsDigit ds
    → IsDigit d
    → digits_value acc (ds ++ d ∷ []) ≡ digits_value acc ds * 10 + (d - 48)
digits_value-append acc d [] all h = ground arith
digits_value-append acc d (c ∷ ds) all h =
    ground (arith, digits_value-append (acc * 10 + (c - 48)) d ds)

digits_value-decimal_on : (fuel n : ℕ) → n < fuel → digits_value 0 (decimal_on fuel n) ≡ n
unfolding decimal_on
digits_value-decimal_on zero n h = elim h [ ]
digits_value-decimal_on (suc fuel) n h =
    if_split (λ ds. digits_value 0 ds ≡ n) (ltb n 10) (λ e. ground arith)
      (λ e.
        digits_value-append 0 (48 + n % 10) (decimal_on fuel (n / 10))
          (decimal_on-digits fuel (n / 10)) (omega arith, omega arith)
        ∙ omega (arith, digits_value-decimal_on fuel (n / 10) (ground arith), ltb→lt n 10))

starts-decimal_on : (fuel n : ℕ) → n < fuel → starts_with_digit (decimal_on fuel n) ≡ true
unfolding decimal_on
starts-decimal_on zero n h = elim h [ ]
starts-decimal_on (suc fuel) n h =
    if_split (λ ds. starts_with_digit ds ≡ true) (ltb n 10) (λ e. ground arith)
      (λ e. go (decimal_on fuel (n / 10)) (starts-decimal_on fuel (n / 10) (ground arith)))
  where
    go :
        (ds : Bytes)
        → starts_with_digit ds ≡ true
        → starts_with_digit (ds ++ (48 + n % 10) ∷ []) ≡ true
    go [] e = ground arith
    go (d ∷ ds) e = e

trim_end-digits : (ds : Bytes) → All IsDigit ds → trim_end ds ≡ ds
trim_end-digits [] all = refl
trim_end-digits (c ∷ []) all = ground arith
trim_end-digits (c ∷ d ∷ ds) all = ground (arith, trim_end-digits (d ∷ ds))

trim_start-digits : (ds : Bytes) → All IsDigit ds → trim_start ds ≡ ds
trim_start-digits [] all = refl
trim_start-digits (c ∷ ds) all = ground arith

stoll-digits :
    (ds : Bytes)
    → All IsDigit ds
    → starts_with_digit ds ≡ true
    → digits_value 0 ds < 2 ^ 63
    → stoll ds ≡ some (pos (digits_value 0 ds))
unfolding stoll
stoll-digits [] all h l = ground arith
stoll-digits (c ∷ ds) all h l = rw (trim_start-digits (c ∷ ds) all) (ground arith)

ne→== : (a b : ℕ) → a ≢ b → (a == b) ≡ false
ne→== a b h = ground arith

abbrev IsInLine : ℕ → Type 0
IsInLine c = c ≢ 10

digits-InLine : (ds : Bytes) → All IsDigit ds → All IsInLine ds
digits-InLine [] all = tt
digits-InLine (c ∷ ds) all = (λ e. absurd (omega (arith, all.0.0)), digits-InLine ds all.1)

strip_cr-append : (line : Bytes) → strip_cr (line ++ 13 ∷ []) ≡ line
strip_cr-append [] = refl
strip_cr-append (c ∷ []) = refl
strip_cr-append (c ∷ d ∷ line) = ap (λ l. c ∷ l) (strip_cr-append (d ∷ line))

-- A header line without an LF inside is read up to the CR LF.
read_line_lem :
    (line xs rest : Bytes) (any : Bool)
    → All IsInLine xs
    → read_header_line line any (xs ++ 13 ∷ 10 ∷ rest) ≡ some (line ++ xs, rest)
unfolding read_header_line
read_line_lem line [] rest any all =
    ap (λ l. some (l, rest)) (strip_cr-append line ∙ sym (append-nil line))
read_line_lem line (c ∷ xs) rest any all =
    let here = ne→== c 10 all.0 in
    rw here (
      read_line_lem (line ++ c ∷ []) xs rest true all.1
      ∙ ap (λ l. some (l, rest)) (append_assoc line (c ∷ []) xs))

header_field_lem :
    (ds : Bytes)
    → All IsDigit ds
    → starts_with_digit ds ≡ true
    → digits_value 0 ds < 2 ^ 63
    → header_field (codes "Content-Length: " ++ ds) (negsuc 0) ≡ some (pos (digits_value 0 ds))
unfolding header_field iequals trim
header_field_lem ds all h l =
    ap stoll (ap trim_end (trim_start-digits ds all) ∙ trim_end-digits ds all)
    ∙ stoll-digits ds all h l

-- The header block that `writeMessage` writes is read whole.
read_headers_lem :
    (fuel : ℕ) (ds rest : Bytes)
    → All IsDigit ds
    → starts_with_digit ds ≡ true
    → digits_value 0 ds < 2 ^ 63
    → read_headers
        (suc (suc fuel))
        (negsuc 0)
        (codes "Content-Length: " ++ ds ++ 13 ∷ 10 ∷ 13 ∷ 10 ∷ rest)
      ≡ found (pos (digits_value 0 ds)) rest
unfolding read_headers after_line
read_headers_lem fuel ds rest all h l =
    rw (read_line_lem (codes "Content-Length: ") ds (13 ∷ 10 ∷ rest) true (digits-InLine ds all))
      (rw (header_field_lem ds all h l) refl)

module _ {Json : Type 0} (parse : Bytes → Option Json) (dump : Json → Bytes) where
  read_body_lem :
      (message : Json) (rest : Bytes)
      → parse (dump message) ≡ some message
      → read_body parse dump (pos (length (dump message))) (dump message ++ rest)
        ≡ some (message, rest)
  unfolding read_body
  read_body_lem message rest parsed =
      let body = dump message in
      let enough =
        le→ltb (length body) (length (body ++ rest)) (omega (arith, length-append body rest)) in
      rw enough (
        rw (take-length_append body rest)
          (rw parsed (ap (λ t. some (message, t)) (drop-length_append body rest))))

  written_lem :
      (message : Json) (rest : Bytes)
      → write_message dump message ++ rest
        ≡ codes "Content-Length: "
          ++ decimal (length (dump message))
          ++ 13 ∷ 10 ∷ 13 ∷ 10 ∷ (dump message ++ rest)
  unfolding write_message
  written_lem message rest =
      let n = length (dump message) in
      ap (λ t. codes "Content-Length: " ++ t)
        (append_assoc (decimal n) (13 ∷ 10 ∷ 13 ∷ 10 ∷ dump message) rest)

  headers_lem :
      (message : Json) (rest : Bytes)
      → length (dump message) < 2 ^ 63
      → (input : Bytes) → input ≡ write_message dump message ++ rest
      → read_headers (suc (length input)) (negsuc 0) input
        ≡ found (pos (length (dump message))) (dump message ++ rest)
  headers_lem message rest small input e =
      let n = length (dump message) in
      let value = digits_value-decimal_on (suc n) n (omega arith) in
      let fuel = length input in
      read_headers-fuel (suc fuel) (suc (suc fuel)) (negsuc 0) input (omega arith) (omega arith)
      ∙ ap (read_headers (suc (suc fuel)) (negsuc 0)) (e ∙ written_lem message rest)
      ∙ read_headers_lem fuel (decimal n) (dump message ++ rest) (decimal_on-digits (suc n) n)
          (starts-decimal_on (suc n) n (omega arith)) (omega (arith, value, small))
      ∙ ap (λ v. found (pos v) (dump message ++ rest)) value

  -- A message that is written is read back, and the stream is left at the byte after it, where
  -- the JSON parser reads the text that the JSON printer gives for the message and this text has
  -- fewer than 2^63 bytes.
  pub read_message-write_message :
      (message : Json) (rest : Bytes)
      → parse (dump message) ≡ some message
      → length (dump message) < 2 ^ 63
      → read_message parse dump (write_message dump message ++ rest) ≡ some (message, rest)
  unfolding read_message
  read_message-write_message message rest parsed small =
      rw (read_message, headers_lem message rest small (write_message dump message ++ rest) refl)
        (read_body_lem message rest parsed)
