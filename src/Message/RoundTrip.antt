-- ===== src/Message/RoundTrip.antt =====
-- Framing and parsing of chunk messages.
use lan_send.Base.{
  ℕ, ◌+◌, ◌^◌, ◌≤◌, ◌<◌, ◌≡◌, refl, Option, none, some, ◌++◌, length, take, drop, arith,
  length-append, take-append_length, drop-append_length, take-append-drop,
}
use lan_send.Message.{Bytes, htonl, ntohl, create_binary_message, parse_binary_message}

-- The header is read back, whatever bytes follow it.
pub ntohl-htonl : (n : ℕ) (rest : Bytes) → n < 2 ^ 32 → ntohl (htonl n ++ rest) ≡ n
unfolding ntohl htonl
ntohl-htonl n rest h = omega arith

length-htonl : (n : ℕ) → length (htonl n) ≡ 4
unfolding htonl
length-htonl n = refl

drop-htonl : (n : ℕ) (rest : Bytes) → drop 4 (htonl n ++ rest) ≡ rest
unfolding htonl
drop-htonl n rest = refl

module _ {Json : Type 0} (dump : Json → Bytes) (parse : Bytes → Option Json) where
  -- A message that was created from metadata shorter than 2 ^ 32 bytes is parsed into that metadata
  -- and that payload, if `parse` reads back what `dump` wrote.
  pub parse-create :
      (metadata : Json) (payload : Bytes)
      → length (dump metadata) < 2 ^ 32
      → parse (dump metadata) ≡ some metadata
      → parse_binary_message parse (create_binary_message dump metadata payload)
        ≡ some (metadata, payload)
  unfolding parse_binary_message create_binary_message
  parse-create metadata payload fits law =
      let body = dump metadata ++ payload in
      rw (drop-htonl (length (dump metadata)) body, ntohl-htonl (length (dump metadata)) body fits)
        (ground (
          arith,
          law,
          length-append (htonl (length (dump metadata))) body,
          length-htonl (length (dump metadata)),
          length-append (dump metadata) payload,
          take-append_length (dump metadata) payload,
          drop-append_length (dump metadata) payload,
        ))

  -- What a successful parse returns is what the message holds: behind the header, the metadata text
  -- of the announced length and then the payload, with no byte lost.
  pub parse_sound :
      (message : Bytes) (metadata : Json) (payload : Bytes)
      → parse_binary_message parse message ≡ some (metadata, payload)
      → (parse (take (ntohl message) (drop 4 message)) ≡ some metadata)
        × (take (ntohl message) (drop 4 message) ++ payload ≡ drop 4 message)
        × (4 + ntohl message ≤ length message)
  unfolding parse_binary_message
  parse_sound message metadata payload h =
      ground (arith, take-append-drop (ntohl message) (drop 4 message))

  -- A message that is shorter than its header, or than its header announces, is refused.
  pub parse_short :
      (message : Bytes)
      → length message < 4 + ntohl message
      → parse_binary_message parse message ≡ none
  unfolding parse_binary_message
  parse_short message h = ground arith
