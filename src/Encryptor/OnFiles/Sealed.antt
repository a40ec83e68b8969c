-- ===== src/Encryptor/OnFiles/Sealed.antt =====
-- FileEncryptor: the whole run of EncryptFileA and of DecryptFileA over a content.
use lan_send.Base.{
  ◌≤◌, ◌+◌, ◌/◌, ◌^◌, ◌<◌, ◌≡◌, ◌≢◌, refl, ap, some, true, false, [], arith, length, append-nil,
}
use lan_send.Message.{Bytes}
use lan_send.Encryptor.{
  Cipher, Expected, encrypt_data, encrypt_steps, key_size, tag_size, block_size,
}
use lan_send.Encryptor.Gcm.{IsGcm, iv_limit, gcm_limit, to_int_small}
use lan_send.Encryptor.OnFiles.{
  run_blocks, end_encrypt, encrypt_content, end_decrypt, decrypt_content,
}
use lan_send.Encryptor.OnFiles.Paired.{block_loop-Loops}

module _ (c : Cipher) (law : IsGcm c) where
  -- What encrypting a content gives, and what decrypting it gives back.
  pub record Sealed (key iv content : Bytes) : Type 0 where
    pub encrypted : Bytes
    pub tag : Bytes
    pub encrypts : encrypt_content c key iv content ≡ some (Expected.value tag, encrypted)
    pub decrypts : decrypt_content c key iv tag encrypted ≡ some (true, content)
    pub refuses :
        (other : Bytes)
        → length other ≡ tag_size
        → other ≢ tag
        → decrypt_content c key iv other encrypted ≡ some (false, content)
    pub same_length : length encrypted ≡ length content
    pub same :
        length content < 2 ^ 31 → encrypt_data c content key iv [] ≡ Expected.value (encrypted, tag)

  pub encrypt_content-Sealed :
      (key iv content : Bytes)
      → length key ≡ key_size
      → 0 < length iv
      → length iv ≤ iv_limit
      → length content ≤ gcm_limit
      → Sealed key iv content
  unfolding encrypt_content decrypt_content run_blocks end_encrypt end_decrypt encrypt_data
      encrypt_steps
  encrypt_content-Sealed key iv content k some_iv small_iv within =
      let start = law.begins key iv k some_iv small_iv in
      let fuel = length content / block_size + 1 in
      let l =
        block_loop-Loops c law fuel 0 content start.0 start.1 [] []
          (law.unauthenticated start.0 start.1 start.4) (omega arith) (omega arith) in
      let end = law.finishes (0 + length content) l.e' l.d' l.paired in
      record {
        encrypted = l.encrypted;
        tag = end.3;
        encrypts =
            rw (encrypt_content, start.2, run_blocks, l.encrypts, end_encrypt, end.4, end.5)
              (ap (λ o. some (Expected.value end.3, o)) (append-nil l.encrypted));
        decrypts =
            rw
              (
                decrypt_content, start.3, run_blocks, l.same_length, l.decrypts, end_decrypt, end.6,
                end.7, end.8,
              )
              (ap (λ o. some (true, o)) (append-nil content));
        refuses = λ other h differs.
            let refused = end.9 other h differs in
            rw
              (
                decrypt_content, start.3, run_blocks, l.same_length, l.decrypts, end_decrypt, h,
                refused.1, refused.2,
              )
              refl;
        same_length = l.same_length;
        same = λ small.
            rw
              (
                encrypt_data,
                encrypt_steps,
                start.2,
                to_int_small (length content) small,
                l.whole small,
                end.4,
                end.5,
              )
              (ap (λ w. Expected.value (w, end.3)) (append-nil l.encrypted));
      }
