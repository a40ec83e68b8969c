-- ===== src/Message.antt =====
-- src/include/core/util/binary_message.h: the frame of a chunk request, a four-byte length in
-- network order, the metadata text and the payload. nlohmann::json is a parameter: a type of
-- documents, `dump`, and `parse`, which is `none` where json::parse throws.
pub mod RoundTrip
use lan_send.Base.{
  ℕ, ◌+◌, ◌*◌, ◌/◌, ◌%◌, ◌^◌, ◌-◌, Option, none, some, List, [], ◌∷◌, ◌++◌, length, take, drop, ltb,
  get_or, if◌then◌else◌,
}

-- std::uint8_t values, each below 256.
abbrev pub Bytes : Type 0
Bytes = List ℕ

-- sizeof(details::BinaryHeader)
abbrev pub header_size : ℕ
header_size = 4

-- memcpy of htonl(static_cast<std::uint32_t>(n)): the cast drops the high bits.
unfoldable pub htonl : ℕ → Bytes
htonl n = ((n / 2 ^ 24) % 256) ∷ ((n / 2 ^ 16) % 256) ∷ ((n / 2 ^ 8) % 256) ∷ (n % 256) ∷ []

-- ntohl of the four bytes at the front.
unfoldable pub ntohl : Bytes → ℕ
ntohl b = ((get_or b 0 0 * 256 + get_or b 1 0) * 256 + get_or b 2 0) * 256 + get_or b 3 0

module _ {Json : Type 0} (dump : Json → Bytes) where
  unfoldable pub create_binary_message : Json → Bytes → Bytes
  create_binary_message metadata payload =
      htonl (length (dump metadata)) ++ (dump metadata ++ payload)

module _ {Json : Type 0} (parse : Bytes → Option Json) where
  -- The metadata bytes are parsed, and what follows them is the payload.
  split_payload : ℕ → Bytes → Option (Json × Bytes)
  split_payload metadata_size body = elim (parse (take metadata_size body)) [
    | none ↦ none
    | some metadata ↦ some (metadata, drop metadata_size body)
  ]

  unfoldable pub parse_binary_message : Bytes → Option (Json × Bytes)
  unfolding split_payload
  parse_binary_message message =
      if ltb (length message) header_size
      then none
      else if ltb (length message) (header_size + ntohl message)
      then none
      else split_payload (ntohl message) (drop header_size message)
