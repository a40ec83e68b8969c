-- ===== src/Encryptor/Keys.antt =====
-- src/core/security/file_encryptor.cc: EncryptKey and DecryptKey, over RSA as a parameter.
use lan_send.Base.{ℕ, ◌-◌, ◌+◌, ◌^◌, String, Option, none, some, length, ltb, if◌then◌else◌}
use lan_send.Message.{Bytes}
use lan_send.Encryptor.{Expected, EncryptError, expected}

-- PEM_read_bio_RSAPublicKey and PEM_read_bio_RSAPrivateKey of a text (none where the buffer or the key
-- is null), RSA_size, RSA_public_encrypt and RSA_private_decrypt with OAEP padding.
pub record Rsa : Type 1 where
  pub Key : Type 0
  pub read_public : String → Option Key
  pub read_private : String → Option Key
  pub size : Key → ℕ
  pub public_encrypt : Key → Bytes → Option Bytes
  pub private_decrypt : Key → Bytes → Option Bytes

-- static_cast<size_t>(rsa_size - 42), which is no bound at all for a smaller modulus.
unfoldable pub key_limit : ℕ → ℕ
key_limit size = if ltb size 42 then (2 ^ 64 + size) - 42 else size - 42

module _ (rsa : Rsa) where
  unfoldable pub encrypt_key : Bytes → String → Expected Bytes
  unfolding key_limit
  encrypt_key key public_key_pem = elim (rsa.read_public public_key_pem) [
    | none ↦ Expected.unexpected EncryptError.openssl
    | some k ↦
        if ltb (key_limit (rsa.size k)) (length key)
        then Expected.unexpected EncryptError.key_too_long
        else expected (rsa.public_encrypt k key)
  ]

  unfoldable pub decrypt_key : Bytes → String → Expected Bytes
  decrypt_key encrypted_key private_key_pem = elim (rsa.read_private private_key_pem) [
    | none ↦ Expected.unexpected EncryptError.openssl
    | some k ↦ expected (rsa.private_decrypt k encrypted_key)
  ]
