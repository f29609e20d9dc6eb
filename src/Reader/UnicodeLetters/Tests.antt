-- ===== src/Reader/UnicodeLetters/Tests.antt =====
-- src/reader/UnicodeLetters.h: the theorem on the search at a letter.
use proto_clojure.Base.{ℕ, ◌<◌, ◌≡◌, ◌↔◌, true, length}
use proto_clojure.Reader.UnicodeLetters.{is_symbol_letter}
use proto_clojure.Reader.UnicodeLetters.Search.{Covers, is_symbol_letter_iff}
use proto_clojure.Reader.UnicodeLetters.Table.{symbol_letter_ranges}

-- U+00E9
is_symbol_letter_iff_example :
    (is_symbol_letter 0xE9 ≡ true)
    ↔ ((i : ℕ) × (i < length symbol_letter_ranges) × Covers symbol_letter_ranges 0xE9 i)
is_symbol_letter_iff_example = is_symbol_letter_iff 0xE9
