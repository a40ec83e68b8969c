-- ===== src/Encryptor/OnFiles/RoundTrip.antt =====
-- FileEncryptor::EncryptFileA and DecryptFileA, one after the other, and against EncryptData.
use lan_send.Base.{
  ℕ, ◌≤◌, ◌^◌, ◌<◌, ◌≡◌, ◌≢◌, refl, ap, ◌∙◌, String, some, Bool, true, false, [], ◌∷◌, arith,
  length, lookup, assign, lookup-assign, lookup-assign_same, str_eq, if_false,
}
use lan_send.Message.{Bytes}
use lan_send.Naming.{Disk}
use lan_send.Encryptor.{Cipher, Expected, encrypt_data, key_size, tag_size}
use lan_send.Encryptor.Gcm.{IsGcm, iv_limit, gcm_limit}
use lan_send.Encryptor.OnFiles.{
  encrypt_content, encrypt_file, decrypt_content, decrypt_file, content_at,
}
use lan_send.Encryptor.OnFiles.Sealed.{encrypt_content-Sealed}

within_limit : (n : ℕ) → n < 2 ^ 31 → n ≤ gcm_limit
within_limit n h = omega arith

no_bytes : (xs : Bytes) → length xs ≡ 0 → xs ≡ []
no_bytes [] h = refl
no_bytes (x ∷ xs) h = absurd (omega arith)

module _ (c : Cipher) (law : IsGcm c) where
  -- The input is another file than the output.
  untouched :
      (input output : String) (content : Bytes) (disk : Disk)
      → lookup input disk ≡ some content
      → str_eq output input ≡ false
      → lookup input (assign output [] disk) ≡ some content
  untouched input output content disk found other =
      lookup-assign output input [] disk ∙ if_false (str_eq output input) _ _ other ∙ found

  content_known :
      (path : String) (content : Bytes) (disk : Disk)
      → lookup path disk ≡ some content
      → content_at path disk ≡ content
  content_known path content disk found = rw (content_at, found) refl

  encrypt_file-content :
      (input output : String) (key iv content out : Bytes) (result : Expected Bytes) (disk : Disk)
      → lookup input disk ≡ some content
      → str_eq output input ≡ false
      → encrypt_content c key iv content ≡ some (result, out)
      → encrypt_file c true input output key iv disk
        ≡ some (result, assign output out (assign output [] disk))
  unfolding encrypt_file
  encrypt_file-content input output key iv content out result disk found other e =
      let there =
        content_known input content (assign output [] disk)
          (untouched input output content disk found other) in
      rw (encrypt_file, found, ap (encrypt_content c key iv) there ∙ e) refl

  decrypt_file-content :
      (input output : String) (key iv tag content out : Bytes) (result : Bool) (disk : Disk)
      → lookup input disk ≡ some content
      → str_eq output input ≡ false
      → decrypt_content c key iv tag content ≡ some (result, out)
      → decrypt_file c true input output key iv tag disk
        ≡ some (result, assign output out (assign output [] disk))
  unfolding decrypt_file
  decrypt_file-content input output key iv tag content out result disk found other e =
      let there =
        content_known input content (assign output [] disk)
          (untouched input output content disk found other) in
      rw (decrypt_file, found, ap (decrypt_content c key iv tag) there ∙ e) refl

  -- Where decrypting `file` with a tag ends, and what it leaves at `back`.
  abbrev pub Leaves : String → String → Bytes → Bytes → Bytes → Disk → Bool → Bytes → Type 0
  Leaves file back key iv tag disk result content =
      (disk' : Disk) × (decrypt_file c true file back key iv tag disk ≡ some (result, disk'))
      × (lookup back disk' ≡ some content)

  decrypt_file-Leaves :
      (file back : String) (key iv tag encrypted content : Bytes) (result : Bool) (disk : Disk)
      → lookup file disk ≡ some encrypted
      → str_eq back file ≡ false
      → decrypt_content c key iv tag encrypted ≡ some (result, content)
      → Leaves file back key iv tag disk result content
  decrypt_file-Leaves file back key iv tag encrypted content result disk found other e = (
    assign back content (assign back [] disk),
    decrypt_file-content file back key iv tag encrypted content result disk found other e,
    lookup-assign_same back content (assign back [] disk),
  )

  -- A file of at most 2 ^ 36 - 32 bytes that is encrypted with a key of 32 bytes and an iv of at most
  -- 128 bytes into another file stays as it is; the
  -- other file, decrypted with the key, the iv and the tag into a third one, gives the content back.
  -- With any other tag of 16 bytes the result is false, but the third file holds the content all the
  -- same.
  pub decrypt_file-encrypt_file :
      (input file back : String) (key iv content : Bytes) (disk : Disk)
      → lookup input disk ≡ some content
      → str_eq file input ≡ false
      → str_eq back file ≡ false
      → length key ≡ key_size
      → 0 < length iv
      → length iv ≤ iv_limit
      → length content ≤ gcm_limit
      → (tag : Bytes) × (disk' : Disk) × (encrypt_file c true input file key iv disk
          ≡ some (Expected.value tag, disk'))
        × (lookup input disk' ≡ some content)
        × Leaves file back key iv tag disk' true content
        × ((other : Bytes)
            → length other ≡ tag_size
            → other ≢ tag
            → Leaves file back key iv other disk' false content)
  decrypt_file-encrypt_file input file back key iv content disk found apart behind k some_iv small
        within =
      let s = encrypt_content-Sealed c law key iv content k some_iv small within in
      let disk' = assign file s.encrypted (assign file [] disk) in
      let written = lookup-assign_same file s.encrypted (assign file [] disk) in
      (
        s.tag,
        disk',
        encrypt_file-content input file key iv content s.encrypted (Expected.value s.tag) disk found
            apart s.encrypts,
        lookup-assign file input s.encrypted (assign file [] disk)
            ∙ if_false (str_eq file input) _ _ apart
            ∙ untouched input file content disk found apart,
        decrypt_file-Leaves file back key iv s.tag s.encrypted content true disk' written behind
            s.decrypts,
        λ other h differs.
            decrypt_file-Leaves file back key iv other s.encrypted content false disk' written
              behind (s.refuses other h differs),
      )

  -- A file below 2 GiB that is encrypted in blocks into another file, with a key of 32 bytes and an iv
  -- of at most 128 bytes: that file holds what encrypting
  -- the whole content at once gives, and the tag is the same.
  pub encrypt_file-eq-data :
      (input file : String) (key iv content : Bytes) (disk : Disk)
      → lookup input disk ≡ some content
      → str_eq file input ≡ false
      → length content < 2 ^ 31
      → length key ≡ key_size
      → 0 < length iv
      → length iv ≤ iv_limit
      → (encrypted tag : Bytes) × (encrypt_data c content key iv []
          ≡ Expected.value (encrypted, tag))
        × (encrypt_file c true input file key iv disk
            ≡ some (Expected.value tag, assign file encrypted (assign file [] disk)))
  encrypt_file-eq-data input file key iv content disk found apart fits k some_iv small =
      let s = encrypt_content-Sealed c law key iv content k some_iv small (within_limit _ fits) in
      (
        s.encrypted,
        s.tag,
        s.same fits,
        encrypt_file-content input file key iv content s.encrypted (Expected.value s.tag) disk found
            apart s.encrypts,
      )

  -- A file that is encrypted into itself, with a key of 32 bytes and an iv of at most 128 bytes, is
  -- emptied before it is read: the result is a tag, no error,
  -- and its content is lost.
  pub encrypt_file-in_place :
      (path : String) (key iv content : Bytes) (disk : Disk)
      → lookup path disk ≡ some content
      → length key ≡ key_size
      → 0 < length iv
      → length iv ≤ iv_limit
      → (tag : Bytes) × (disk' : Disk) × (encrypt_file c true path path key iv disk
          ≡ some (Expected.value tag, disk'))
        × (lookup path disk' ≡ some [])
  unfolding encrypt_file
  encrypt_file-in_place path key iv content disk found k some_iv small =
      let s = encrypt_content-Sealed c law key iv [] k some_iv small (omega arith) in
      let emptied = content_known path [] (assign path [] disk) (lookup-assign_same path [] disk) in
      (
        s.tag,
        assign path s.encrypted (assign path [] disk),
        rw (encrypt_file, found, ap (encrypt_content c key iv) emptied ∙ s.encrypts) refl,
        lookup-assign_same path s.encrypted (assign path [] disk)
            ∙ ap some (no_bytes s.encrypted s.same_length),
      )
