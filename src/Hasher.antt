-- ===== src/Hasher.antt =====
-- src/core/security/file_hasher.cc: SHA-256 checksums as lower-case hexadecimal text. OpenSSL's
-- digest (EVP_DigestInit_ex, EVP_DigestUpdate, EVP_DigestFinal_ex) is the parameter `Digest`.
pub mod Streaming
pub mod Hex
use lan_send.Base.{
  ℕ, zero, suc, ◌+◌, ◌/◌, ◌%◌, String, ◌<>◌, Option, none, some, List, [], ◌∷◌, ◌++◌, ◌≡◌, Bool,
  true, false, length, take, drop, ltb, ◌==◌, if◌then◌else◌,
}
use lan_send.Message.{Bytes}

pub record Digest : Type 1 where
  pub Ctx : Type 0
  pub init : Ctx
  pub update : Ctx → Bytes → Ctx
  pub final : Ctx → Bytes

-- EVP_DigestUpdate may be called repeatedly, and hashes the concatenation of what it is given.
pub record IsStreaming (d : Digest) : Type 0 where
  pub update-nil : (c : d.Ctx) → d.update c [] ≡ c
  pub update-append : (c : d.Ctx) (a b : Bytes) → d.update (d.update c a) b ≡ d.update c (a ++ b)

-- std::hex of a number below sixteen.
unfoldable pub hex_digit : ℕ → String
hex_digit n =
    if n == 0
    then "0"
    else if n == 1
    then "1"
    else if n == 2
    then "2"
    else if n == 3
    then "3"
    else if n == 4
    then "4"
    else if n == 5
    then "5"
    else if n == 6
    then "6"
    else if n == 7
    then "7"
    else if n == 8
    then "8"
    else if n == 9
    then "9"
    else if n == 10
    then "a"
    else if n == 11
    then "b"
    else if n == 12
    then "c"
    else if n == 13
    then "d"
    else if n == 14
    then "e"
    else "f"

-- std::hex << std::setw(2) << std::setfill('0') of a byte.
unfoldable pub hex_byte : ℕ → String
unfolding hex_digit
hex_byte b = hex_digit (b / 16) <> hex_digit (b % 16)

unfoldable pub to_hex : Bytes → String
unfolding hex_byte
to_hex [] = ""
to_hex (b ∷ bs) = hex_byte b <> to_hex bs

abbrev pub buffer_size : ℕ
buffer_size = 8192

module _ (d : Digest) where
  unfoldable pub calculate_data_checksum : Bytes → String
  calculate_data_checksum payload = to_hex (d.final (d.update d.init payload))

  -- `while (file)`: a read that comes up short ends the stream. Each round but the last takes
  -- `buffer_size` bytes off, and `none` means that the fuel ran out.
  digest_loop : ℕ → Bytes → d.Ctx → Option d.Ctx
  digest_loop zero content ctx = none
  digest_loop (suc fuel) content ctx =
      let buffer = take buffer_size content in
      let ctx' = if ltb 0 (length buffer) then d.update ctx buffer else ctx in
      let rest = digest_loop fuel (drop buffer_size content) ctx' in
      if length buffer == buffer_size then rest else some ctx'

  -- The checksum of a file with this content; the fuel is one round more than the full buffers.
  unfoldable pub checksum_of_stream : Bytes → Option String
  unfolding digest_loop
  checksum_of_stream content =
      elim (digest_loop (length content / buffer_size + 1) content d.init) [
        | none ↦ none
        | some ctx ↦ some (to_hex (d.final ctx))
      ]
