-- ===== src/Tests/Texts.antt =====
-- Framing, checksums, names and disk blocks at concrete inputs.
use lan_send.Base.{
  ◌+◌, ◌<>◌, Option, none, some, ◌≡◌, refl, [], ◌∷◌, leb, if◌then◌else◌, arith, to_string,
}
use lan_send.Message.{Bytes, create_binary_message, parse_binary_message}
use lan_send.Message.RoundTrip.{parse-create}
use lan_send.Hasher.{checksum_of_stream, calculate_data_checksum}
use lan_send.Hasher.Streaming.{checksum_of_stream-eq-data}
use lan_send.Naming.{Disk, first_suffix, int_max}
use lan_send.Naming.Suffix.{first_suffix-candidate}
use lan_send.Tests.Toy.{identity_digest, identity_digest-IsStreaming}

-- A JSON library whose documents are their texts.
abbrev dump_text : Bytes → Bytes
dump_text b = b

abbrev parse_text : Bytes → Option Bytes
parse_text b = some b

parse-create_example :
    parse_binary_message parse_text (create_binary_message dump_text (123 ∷ 125 ∷ []) (7 ∷ 8 ∷ []))
    ≡ some (123 ∷ 125 ∷ [], 7 ∷ 8 ∷ [])
parse-create_example =
    parse-create dump_text parse_text (123 ∷ 125 ∷ []) (7 ∷ 8 ∷ []) (omega arith) refl

abbrev message : Bytes
message = 0 ∷ 0 ∷ 0 ∷ 1 ∷ 123 ∷ 7 ∷ []

checksum_of_stream-eq-data_example :
    checksum_of_stream identity_digest (1 ∷ 255 ∷ [])
    ≡ some (calculate_data_checksum identity_digest (1 ∷ 255 ∷ []))
checksum_of_stream-eq-data_example =
    checksum_of_stream-eq-data identity_digest identity_digest-IsStreaming (1 ∷ 255 ∷ [])

abbrev taken : Disk
taken = ("/d/a.txt", []) ∷ ("/d/a (1).txt", []) ∷ []

first_suffix-candidate_example :
    first_suffix ("a" <> (" (" <> (to_string 9 <> ")")))
    ≡ (if leb int_max 9 then none else some ("a", 9 + 1))
first_suffix-candidate_example = first_suffix-candidate "a" 9 (refl, tt)
