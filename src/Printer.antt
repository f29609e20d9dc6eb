-- ===== src/Printer.antt =====
-- src/runtime/Primitives.cpp: `appendReadableString`, the readable form of a string.
pub mod RoundTrip
mod Tests
use proto_clojure.Base.{ℕ, [], ◌∷◌, ◌++◌, ◌==◌, if◌then◌else◌, Bytes}

-- What the switch appends for a byte.
unfoldable pub readable_byte : ℕ → Bytes
readable_byte c =
    if c == b'"'
    then b'\\' ∷ b'"' ∷ []
    else if c == b'\\'
    then b'\\' ∷ b'\\' ∷ []
    else if c == b'\n'
    then b'\\' ∷ b'n' ∷ []
    else if c == b'\t'
    then b'\\' ∷ b't' ∷ []
    else if c == b'\r'
    then b'\\' ∷ b'r' ∷ []
    else if c == 12
    then b'\\' ∷ b'f' ∷ []
    else if c == 8
    then b'\\' ∷ b'b' ∷ []
    else c ∷ []

unfoldable pub readable_bytes : Bytes → Bytes → Bytes
unfolding readable_byte
readable_bytes out [] = out
readable_bytes out (c ∷ bytes) = readable_bytes (out ++ readable_byte c) bytes

unfoldable pub append_readable_string : Bytes → Bytes → Bytes
unfolding readable_bytes
append_readable_string out bytes = readable_bytes (out ++ b'"' ∷ []) bytes ++ b'"' ∷ []
