-- ===== src/Encryptor/RoundTrip.antt =====
-- FileEncryptor::EncryptData and DecryptData, one after the other.
use lan_send.Base.{◌+◌, ℕ, arith, ◌≤◌, ◌^◌, ◌<◌, ◌≡◌, ◌≢◌, refl, ap, length, append-nil}
use lan_send.Message.{Bytes}
use lan_send.Encryptor.{
  Cipher, Expected, EncryptError, encrypt_data, decrypt_data, encrypt_steps, decrypt_steps,
  key_size, tag_size,
}
use lan_send.Encryptor.Gcm.{IsGcm, iv_limit, gcm_limit, to_int_small, authenticated}

within : (n : ℕ) → n < 2 ^ 31 → 0 + n ≤ gcm_limit
within n h = omega arith

module _ (c : Cipher) (law : IsGcm c) where
  -- Data below 2 GiB that were encrypted with a key of 32 bytes and an iv of at most 128 bytes are as long as before, and
  -- decrypting them with the key, the iv, the tag and the authenticated data gives them back; any
  -- other tag of 16 bytes is refused.
  pub decrypt_data-encrypt_data :
      (payload key iv aad : Bytes)
      → length payload < 2 ^ 31
      → length key ≡ key_size
      → 0 < length iv
      → length iv ≤ iv_limit
      → length aad < 2 ^ 31
      → (encrypted tag : Bytes) × (encrypt_data c payload key iv aad
          ≡ Expected.value (encrypted, tag))
        × (length encrypted ≡ length payload)
        × (decrypt_data c encrypted key iv tag aad ≡ Expected.value payload)
        × ((other : Bytes)
            → length other ≡ tag_size
            → other ≢ tag
            → decrypt_data c encrypted key iv other aad ≡ Expected.unexpected EncryptError.openssl)
  unfolding encrypt_data decrypt_data encrypt_steps decrypt_steps
  decrypt_data-encrypt_data payload key iv aad small k some_iv small_iv small_aad =
      let start = law.begins key iv k some_iv small_iv in
      let auth = authenticated c law start.0 start.1 aad start.4 small_aad in
      let done = law.updates 0 auth.0 auth.1 payload auth.4 small (within (length payload) small) in
      let end = law.finishes (0 + length payload) done.0 done.1 done.6 in
      let same = to_int_small (length payload) small in
      (
        done.2,
        end.3,
        rw (encrypt_data, encrypt_steps, start.2, auth.2, same, done.3, end.4, end.5)
            (ap (λ w. Expected.value (w, end.3)) (append-nil done.2)),
        done.5,
        rw (decrypt_data, decrypt_steps, start.3, auth.3, done.5, same, done.4, end.6, end.7, end.8)
            (ap Expected.value (append-nil payload)),
        λ other h differs.
            let refused = end.9 other h differs in
            rw
              (
                decrypt_data, decrypt_steps, start.3, auth.3, done.5, same, done.4, h, refused.1,
                refused.2,
              )
              refl,
      )
