-- ===== src/Dap/Headers.antt =====
-- src/dap/DapTransport.cpp: the loop over the header block ends.
use proto_clojure.Base.{
  ℕ, zero, suc, ◌≤◌, ◌<◌, ◌≡◌, ◌≢◌, refl, subst, Bool, true, false, some, [], ◌∷◌, ◌++◌, arith,
  length, Bytes, ℤ, Option-cases, inl, inr,
}
use proto_clojure.Dap.{
  read_header_line, read_headers, after_line, header_field, HeaderBlock, found, refused,
  out_of_fuel,
}

line_le :
    (line input l r : Bytes) (any : Bool)
    → read_header_line line any input ≡ some (l, r)
    → length r ≤ length input
unfolding read_header_line
line_le line [] l r any e = ground arith
line_le line (c ∷ input) l r any e = ground (arith, line_le (line ++ c ∷ []) input l r true)

line_lt :
    (line input l r : Bytes)
    → read_header_line line false input ≡ some (l, r)
    → length r < length input
unfolding read_header_line
line_lt line [] l r e = ground arith
line_lt line (c ∷ input) l r e = ground (arith, line_le (line ++ c ∷ []) input l r true)

after_line-loop :
    (f g : ℤ → Bytes → HeaderBlock) (len : ℤ) (line rest : Bytes)
    → ((now : ℤ) → f now rest ≡ g now rest)
    → after_line f len line rest ≡ after_line g len line rest
unfolding after_line
after_line-loop f g len [] rest same = refl
after_line-loop f g len (c ∷ line) rest same = elim (Option-cases (header_field (c ∷ line) len)) [
  | inl e ↦ rw (e, after_line) refl
  | inr (now, e) ↦ rw (e, after_line) (same now)
]

-- Two amounts of fuel above the length of the input give the same.
pub read_headers-fuel :
    (f g : ℕ) (len : ℤ) (input : Bytes)
    → length input < f
    → length input < g
    → read_headers f len input ≡ read_headers g len input
unfolding read_headers
read_headers-fuel zero g len input hf hg = absurd (omega arith)
read_headers-fuel f zero len input hf hg = absurd (omega arith)
read_headers-fuel (suc f) (suc g) len input hf hg =
    elim (Option-cases (read_header_line [] false input)) [
      | inl e ↦ rw (e, read_headers) refl
      | inr ((line, rest), e) ↦
          rw (e, read_headers)
            (after_line-loop (read_headers f) (read_headers g) len line rest (λ now.
              read_headers-fuel f g now rest (omega (arith, line_lt [] input line rest e))
                (omega (arith, line_lt [] input line rest e))))
    ]

-- Ended by a blank line, by the end of the stream or by a malformed length.
abbrev pub HasEnded : HeaderBlock → Type 0
HasEnded (found len rest) = Unit
HasEnded refused = Unit
HasEnded out_of_fuel = ⊥

after_line-HasEnded :
    (f : ℤ → Bytes → HeaderBlock) (len : ℤ) (line rest : Bytes)
    → ((now : ℤ) → HasEnded (f now rest))
    → HasEnded (after_line f len line rest)
unfolding after_line
after_line-HasEnded f len [] rest h = tt
after_line-HasEnded f len (c ∷ line) rest h = elim (Option-cases (header_field (c ∷ line) len)) [
  | inl e ↦ rw (e, after_line) tt
  | inr (now, e) ↦ rw (e, after_line) (h now)
]

read_headers-HasEnded :
    (fuel : ℕ) (len : ℤ) (input : Bytes)
    → length input < fuel
    → HasEnded (read_headers fuel len input)
unfolding read_headers
read_headers-HasEnded zero len input h = absurd (omega arith)
read_headers-HasEnded (suc fuel) len input h =
    elim (Option-cases (read_header_line [] false input)) [
      | inl e ↦ rw (e, read_headers) tt
      | inr ((line, rest), e) ↦
          rw (e, read_headers)
            (after_line-HasEnded (read_headers fuel) len line rest (λ now.
              read_headers-HasEnded fuel now rest (omega (arith, line_lt [] input line rest e))))
    ]

-- The loop over the header lines ends: with more fuel than the input has bytes it comes to a
-- blank line, to the end of the stream or to a malformed length, and to the same as with one
-- round more than the input has bytes.
pub read_headers_ends :
    (fuel : ℕ) (len : ℤ) (input : Bytes)
    → length input < fuel
    → (read_headers fuel len input ≢ out_of_fuel)
      × (read_headers fuel len input ≡ read_headers (suc (length input)) len input)
read_headers_ends fuel len input h = (
  λ e. subst HasEnded e (read_headers-HasEnded fuel len input h),
  read_headers-fuel fuel (suc (length input)) len input h (omega arith),
)
