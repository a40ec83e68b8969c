-- ===== src/Encryptor/OnFiles.antt =====
-- src/core/security/file_encryptor.cc: EncryptFileA and DecryptFileA. Both open the output, which
-- empties it, and then go through the input in blocks. Writes to an open file are taken to succeed.
pub mod Paired
pub mod Sealed
pub mod RoundTrip
use lan_send.Base.{
  ℕ, zero, suc, ◌+◌, ◌/◌, String, Option, none, some, Bool, true, false, List, [], ◌++◌, length,
  take, drop, ◌==◌, if◌then◌else◌, lookup, assign,
}
use lan_send.Message.{Bytes}
use lan_send.Naming.{Disk}
use lan_send.Encryptor.{
  Cipher, Expected, EncryptError, begin_encrypt, begin_decrypt, tag_size, block_size, to_int,
}

-- What `std::ifstream` reads of a path.
abbrev pub content_at : String → Disk → Bytes
content_at path disk = elim (lookup path disk) [ none ↦ [] | some content ↦ content ]

module _ {Ctx : Type 0} (update : Bytes → ℕ → Ctx → Option (Ctx × Bytes)) where
  -- `while (in)`: a read that comes up short ends the stream, and its bytes, perhaps none, are passed
  -- on. The result is the context, or none where a call failed, and all that was written; the outer
  -- `none` means that the fuel ran out.
  unfoldable pub block_loop : ℕ → Bytes → Ctx → Bytes → Option (Option Ctx × Bytes)
  block_loop zero content ctx out = none
  block_loop (suc fuel) content ctx out =
      let buffer = take block_size content in
      elim (update buffer (to_int (length buffer)) ctx) [
        | none ↦ some (none, out)
        | some (ctx', written) ↦
            let rest = block_loop fuel (drop block_size content) ctx' (out ++ written) in
            if length buffer == block_size then rest else some (some ctx', out ++ written)
      ]

  -- Over a whole file; the fuel is one round more than the full blocks.
  unfoldable pub run_blocks : Bytes → Ctx → Option (Option Ctx × Bytes)
  unfolding block_loop
  run_blocks content ctx = block_loop (length content / block_size + 1) content ctx []

module _ (c : Cipher) where
  -- The calls after the loop, and what the output holds then.
  unfoldable pub end_encrypt : Option c.Ctx × Bytes → Expected Bytes × Bytes
  end_encrypt (none, out) = (Expected.unexpected EncryptError.openssl, out)
  end_encrypt (some ctx, out) = elim (c.encrypt_final ctx) [
    | none ↦ (Expected.unexpected EncryptError.openssl, out)
    | some (ctx', last) ↦ elim (c.get_tag tag_size ctx') [
      | none ↦ (Expected.unexpected EncryptError.openssl, out ++ last)
      | some tag ↦ (Expected.value tag, out ++ last)
    ]
  ]

  unfoldable pub encrypt_content : Bytes → Bytes → Bytes → Option (Expected Bytes × Bytes)
  unfolding end_encrypt run_blocks begin_encrypt
  encrypt_content key iv content = elim (begin_encrypt c key iv) [
    | none ↦ some (Expected.unexpected EncryptError.openssl, [])
    | some ctx ↦ elim (run_blocks c.encrypt_update content ctx) [
      | none ↦ none
      | some ended ↦ some (end_encrypt ended)
    ]
  ]

  -- `can_open` says whether the output can be opened for writing.
  unfoldable pub encrypt_file :
      Bool → (input output : String) → (key iv : Bytes) → Disk → Option (Expected Bytes × Disk)
  unfolding encrypt_content
  encrypt_file can_open input output key iv disk = elim (lookup input disk) [
    | none ↦ some (Expected.unexpected EncryptError.no_input, disk)
    | some _ ↦
        if can_open
        then elim (encrypt_content key iv (content_at input (assign output [] disk))) [
          | none ↦ none
          | some (result, out) ↦ some (result, assign output out (assign output [] disk))
        ]
        else some (Expected.unexpected EncryptError.no_output, disk)
  ]

  unfoldable pub end_decrypt : Bytes → Option c.Ctx × Bytes → Bool × Bytes
  end_decrypt tag (none, out) = (false, out)
  end_decrypt tag (some ctx, out) = elim (c.set_tag tag (to_int (length tag)) ctx) [
    | none ↦ (false, out)
    | some ctx' ↦ elim (c.decrypt_final ctx') [
      | none ↦ (false, out)
      | some (_, last) ↦ (true, out ++ last)
    ]
  ]

  unfoldable pub decrypt_content : Bytes → Bytes → Bytes → Bytes → Option (Bool × Bytes)
  unfolding end_decrypt run_blocks begin_decrypt
  decrypt_content key iv tag content = elim (begin_decrypt c key iv) [
    | none ↦ some (false, [])
    | some ctx ↦ elim (run_blocks c.decrypt_update content ctx) [
      | none ↦ none
      | some ended ↦ some (end_decrypt tag ended)
    ]
  ]

  unfoldable pub decrypt_file :
      Bool → (input output : String) → (key iv tag : Bytes) → Disk → Option (Bool × Disk)
  unfolding decrypt_content
  decrypt_file can_open input output key iv tag disk = elim (lookup input disk) [
    | none ↦ some (false, disk)
    | some _ ↦
        if can_open
        then elim (decrypt_content key iv tag (content_at input (assign output [] disk))) [
          | none ↦ none
          | some (result, out) ↦ some (result, assign output out (assign output [] disk))
        ]
        else some (false, disk)
  ]
