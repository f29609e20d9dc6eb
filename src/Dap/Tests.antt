-- ===== src/Dap/Tests.antt =====
-- src/dap/DapTransport.cpp: the theorems on the framing at a message, with the JSON values true and
-- false.
use proto_clojure.Base.{
  ◌≡◌, ◌≢◌, refl, Bool, true, false, Option, none, some, ◌∷◌, ◌++◌, Bytes, codes, equal, suc,
  length, if◌then◌else◌, arith, pos, negsuc,
}
use proto_clojure.Dap.{found, out_of_fuel, read_headers, read_message, write_message}
use proto_clojure.Dap.Headers.{read_headers_ends}
use proto_clojure.Dap.RoundTrip.{read_message-write_message}

abbrev dump : Bool → Bytes
dump true = codes "true"
dump false = codes "false"

abbrev parse : Bytes → Option Bool
parse text =
    if equal text (codes "true")
    then some true
    else if equal text (codes "false")
    then some false
    else none

read_message-write_message_example :
    read_message parse dump (write_message dump true ++ codes "Con") ≡ some (true, codes "Con")
read_message-write_message_example =
    read_message-write_message parse dump true (codes "Con") refl (omega arith)

-- A header that is not known, a length in another case, and the blank line.
abbrev headers : Bytes
headers = codes "X-Y: 1" ++ 13 ∷ 10 ∷ codes "CONTENT-length:  12 " ++ 13 ∷ 10 ∷ 10 ∷ codes "{}"

read_headers_run : read_headers 40 (negsuc 0) headers ≡ found (pos 12) (codes "{}")
unfolding read_headers
read_headers_run = refl

read_headers_ends_example :
    (read_headers 50 (negsuc 0) headers ≢ out_of_fuel)
    × (read_headers 50 (negsuc 0) headers ≡ read_headers (suc (length headers)) (negsuc 0) headers)
read_headers_ends_example = read_headers_ends 50 (negsuc 0) headers (omega arith)
