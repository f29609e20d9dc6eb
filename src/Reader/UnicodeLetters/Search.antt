-- ===== src/Reader/UnicodeLetters/Search.antt =====
-- src/reader/UnicodeLetters.h: the binary search finds exactly the code points of the table.
use proto_clojure.Base.{
  ℕ, zero, suc, ◌+◌, ◌-◌, ◌/◌, ◌≤◌, ◌<◌, ◌≡◌, refl, ◌↔◌, Bool, true, false, ◌&&◌, List, [], ◌∷◌,
  arith, ltb, leb, length, Bool-cases, tests, inl, inr, ◌≢◌,
}
use proto_clojure.Reader.UnicodeLetters.Table.{CodePointRange, symbol_letter_ranges}
use proto_clojure.Reader.UnicodeLetters.{range_at, search_ranges, is_symbol_letter}

-- The code point lies in the range at index `i`.
abbrev pub Covers : List CodePointRange → ℕ → ℕ → Type 0
Covers table cp i = ((range_at table i).first ≤ cp) × (cp ≤ (range_at table i).last)

-- The ranges ascend and are disjoint.
ascending : List CodePointRange → Bool
ascending [] = true
ascending (r ∷ []) = leb r.first r.last
ascending (r ∷ s ∷ rest) = leb r.first r.last && ltb r.last s.first && ascending (s ∷ rest)

-- A later range lies above the first one.
ascending-first :
    (r : CodePointRange) (rest : List CodePointRange) (i : ℕ)
    → ascending (r ∷ rest) ≡ true
    → i < length rest
    → r.last < (range_at rest i).first
unfolding ascending
ascending-first r [] i h l = elim l [ ]
ascending-first r (s ∷ []) zero h l = ground arith
ascending-first r (s ∷ []) (suc i) h l = absurd (omega arith)
ascending-first r (s ∷ t ∷ rest) zero h l = ground arith
ascending-first r (s ∷ t ∷ rest) (suc i) h l = ground (arith, ascending-first s (t ∷ rest) i)

ascending-tail :
    (r : CodePointRange) (rest : List CodePointRange)
    → ascending (r ∷ rest) ≡ true
    → ascending rest ≡ true
unfolding ascending
ascending-tail r [] h = refl
ascending-tail r (s ∷ rest) h = ground arith

ascending-lt :
    (table : List CodePointRange) (i j : ℕ)
    → ascending table ≡ true
    → i < j
    → j < length table
    → (range_at table i).last < (range_at table j).first
ascending-lt [] i j h p l = elim l [ ]
ascending-lt (r ∷ rest) zero zero h p l = elim p [ ]
ascending-lt (r ∷ rest) zero (suc j) h p l = ascending-first r rest j h (omega arith)
ascending-lt (r ∷ rest) (suc i) zero h p l = elim p [ ]
ascending-lt (r ∷ rest) (suc i) (suc j) h p l =
    ascending-lt rest i j (ascending-tail r rest h) (omega arith) (omega arith)

ascending-le :
    (table : List CodePointRange) (i : ℕ)
    → ascending table ≡ true
    → i < length table
    → (range_at table i).first ≤ (range_at table i).last
unfolding ascending
ascending-le [] i h l = elim l [ ]
ascending-le (r ∷ []) zero h l = ground arith
ascending-le (r ∷ s ∷ rest) zero h l = ground arith
ascending-le (r ∷ rest) (suc i) h l = ascending-le rest i (ascending-tail r rest h) (omega arith)

-- With no range left the answer is false.
search_ends :
    (fuel : ℕ) (table : List CodePointRange) (cp lo hi : ℕ)
    → ltb lo hi ≡ false
    → search_ranges (suc fuel) table cp lo hi ≢ true
unfolding search_ranges
search_ends fuel table cp lo hi done h = ground arith

search_sound :
    (fuel : ℕ) (table : List CodePointRange) (cp lo hi : ℕ)
    → search_ranges fuel table cp lo hi ≡ true
    → (i : ℕ) × (i < hi) × Covers table cp i
unfolding search_ranges
search_sound zero table cp lo hi h = cc
search_sound (suc fuel) table cp lo hi h =
    let mid = lo + (hi - lo) / 2 in
    elim (Bool-cases (ltb lo hi)) [
      | inr done ↦ absurd (search_ends fuel table cp lo hi done h)
      | inl more ↦ elim (Bool-cases (ltb (range_at table mid).last cp)) [
        | inl above ↦ search_sound fuel table cp (mid + 1) hi (rw (more, above) at h)
        | inr not_above ↦ elim (Bool-cases (ltb cp (range_at table mid).first)) [
          | inl below ↦
              let (i, l, c) =
                search_sound fuel table cp lo mid (rw (more, not_above, below) at h) in
              (i, omega tests, c)
          | inr found ↦ (mid, omega tests, (ground arith, ground arith))
        ]
      ]
    ]

search_complete :
    (fuel : ℕ) (table : List CodePointRange) (cp lo hi i : ℕ)
    → ascending table ≡ true
    → hi ≤ length table
    → hi - lo ≤ fuel
    → lo ≤ i
    → i < hi
    → Covers table cp i
    → search_ranges fuel table cp lo hi ≡ true
unfolding search_ranges
search_complete zero table cp lo hi i a l f p q c = absurd (omega arith)
search_complete (suc fuel) table cp lo hi i a l f p q c =
    let mid = lo + (hi - lo) / 2 in
    ground (
      arith,
      ascending-lt table i mid a,
      ascending-lt table mid i a,
      ascending-le table mid a,
      search_complete fuel table cp (mid + 1) hi i a,
      search_complete fuel table cp lo mid i a,
    )

table-ascending : ascending symbol_letter_ranges ≡ true
unfolding ascending symbol_letter_ranges
table-ascending = refl

-- `isSymbolLetter` answers true exactly for the code points that lie in a range of the table.
pub is_symbol_letter_iff :
    (cp : ℕ)
    → (is_symbol_letter cp ≡ true)
      ↔ ((i : ℕ) × (i < length symbol_letter_ranges) × Covers symbol_letter_ranges cp i)
unfolding is_symbol_letter
is_symbol_letter_iff cp =
    let t = symbol_letter_ranges in
    (
      search_sound (length t) t cp 0 (length t),
      λ (i, l, c).
          search_complete (length t) t cp 0 (length t) i table-ascending (omega arith) (omega arith)
            (omega arith) l c,
    )
