-- ===== src/Reader/UnicodeLetters.antt =====
-- src/reader/UnicodeLetters.h: `isSymbolLetter`, a binary search over a sorted table.
pub mod Table
pub mod Search
mod Tests
use proto_clojure.Base.{
  ℕ, zero, suc, ◌+◌, ◌-◌, ◌/◌, Bool, true, false, List, ltb, if◌then◌else◌, length, get_or,
}
use Table.{CodePointRange, symbol_letter_ranges}

-- `kSymbolLetterRanges[mid]`; the search reads no index outside the table.
abbrev pub range_at : List CodePointRange → ℕ → CodePointRange
range_at table i = get_or table i (record { first = 0; last = 0 })

-- The loop. Each round at least halves `hi - lo`, so `hi - lo` rounds are enough.
unfoldable pub search_ranges : ℕ → List CodePointRange → ℕ → ℕ → ℕ → Bool
search_ranges zero table cp lo hi = false
search_ranges (suc fuel) table cp lo hi =
    let mid = lo + (hi - lo) / 2 in
    let above = search_ranges fuel table cp (mid + 1) hi in
    let below = search_ranges fuel table cp lo mid in
    if ltb lo hi
    then if ltb (range_at table mid).last cp
      then above
      else if ltb cp (range_at table mid).first
      then below
      else true
    else false

unfoldable pub is_symbol_letter : ℕ → Bool
unfolding search_ranges
is_symbol_letter cp =
    search_ranges (length symbol_letter_ranges) symbol_letter_ranges cp 0
      (length symbol_letter_ranges)
