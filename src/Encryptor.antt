-- ===== src/Encryptor.antt =====
-- src/core/security/file_encryptor.cc: AES-256-GCM over data and over files. The cipher contexts of
-- OpenSSL are the parameter `Cipher`; a call that does not return 1 is `none`.
pub mod Keys
pub mod OnFiles
pub mod Gcm
pub mod RoundTrip
use lan_send.Base.{
  ℕ, zero, suc, ◌+◌, ◌/◌, ◌%◌, ◌^◌, ◌-◌, ◌≤◌, String, Option, none, some, Bool, true, false, List,
  [], ◌∷◌, ◌++◌, length, take, drop, ltb, leb, ◌==◌, if◌then◌else◌, is_nil, lookup, assign,
}
use lan_send.Message.{Bytes}
use lan_send.Naming.{Disk}

infixl 5 ◌>>=◌
abbrev pub ◌>>=◌ {ℓ κ} : {A : Type ℓ} {B : Type κ} → Option A → (A → Option B) → Option B
none >>= f = none
some a >>= f = f a

-- EVP_CIPHER_CTX_new, EVP_EncryptInit_ex with the cipher, EVP_CTRL_GCM_SET_IVLEN, EVP_EncryptInit_ex
-- with key and iv, EVP_EncryptUpdate without and with a place for its output, EVP_EncryptFinal_ex,
-- EVP_CTRL_GCM_GET_TAG, and their counterparts. A number beside bytes is the `int` that the code
-- passes, as its residue modulo 2 ^ 32.
pub record Cipher : Type 1 where
  pub Ctx : Type 0
  pub new : Option Ctx
  pub encrypt_init : Ctx → Option Ctx
  pub decrypt_init : Ctx → Option Ctx
  pub set_ivlen : ℕ → Ctx → Option Ctx
  pub encrypt_key : Bytes → Bytes → Ctx → Option Ctx
  pub decrypt_key : Bytes → Bytes → Ctx → Option Ctx
  pub encrypt_aad : Bytes → ℕ → Ctx → Option Ctx
  pub decrypt_aad : Bytes → ℕ → Ctx → Option Ctx
  pub encrypt_update : Bytes → ℕ → Ctx → Option (Ctx × Bytes)
  pub decrypt_update : Bytes → ℕ → Ctx → Option (Ctx × Bytes)
  pub encrypt_final : Ctx → Option (Ctx × Bytes)
  pub decrypt_final : Ctx → Option (Ctx × Bytes)
  pub get_tag : ℕ → Ctx → Option Bytes
  pub set_tag : Bytes → ℕ → Ctx → Option Ctx

-- The texts of the errors; `openssl` is that of ERR_error_string.
pub data EncryptError : Type 0 where
  openssl no_input no_output key_too_long : EncryptError

-- std::expected
pub data Expected (A : Type 0) : Type 0 where
  value : A → Expected A
  unexpected : EncryptError → Expected A

abbrev pub key_size : ℕ
key_size = 32

abbrev pub iv_size : ℕ
iv_size = 12

abbrev pub tag_size : ℕ
tag_size = 16

abbrev pub block_size : ℕ
block_size = 4096

-- static_cast<int>, as a residue
abbrev pub to_int : ℕ → ℕ
to_int n = n % 2 ^ 32

abbrev pub expected : {A : Type 0} → Option A → Expected A
expected none = Expected.unexpected EncryptError.openssl
expected (some a) = Expected.value a

-- RAND_bytes is a parameter.
unfoldable generate_key : (ℕ → Option Bytes) → ℕ → Expected Bytes
generate_key rand_bytes n = expected (rand_bytes n)

unfoldable generate_iv : (ℕ → Option Bytes) → Expected Bytes
generate_iv rand_bytes = expected (rand_bytes iv_size)

module _ (c : Cipher) where
  -- The three calls that set up a context.
  unfoldable pub begin_encrypt : Bytes → Bytes → Option c.Ctx
  begin_encrypt key iv = do
    ctx ← c.new
    ctx ← c.encrypt_init ctx
    ctx ← c.set_ivlen (to_int (length iv)) ctx
    c.encrypt_key key iv ctx

  unfoldable pub begin_decrypt : Bytes → Bytes → Option c.Ctx
  begin_decrypt key iv = do
    ctx ← c.new
    ctx ← c.decrypt_init ctx
    ctx ← c.set_ivlen (to_int (length iv)) ctx
    c.decrypt_key key iv ctx

  -- if (!aad.empty())
  abbrev pub unless_empty : (Bytes → ℕ → c.Ctx → Option c.Ctx) → Bytes → c.Ctx → Option c.Ctx
  unless_empty add aad ctx = if is_nil aad then some ctx else add aad (to_int (length aad)) ctx

  unfoldable pub encrypt_steps : Bytes → Bytes → Bytes → Bytes → Option (Bytes × Bytes)
  unfolding begin_encrypt
  encrypt_steps payload key iv aad = do
    ctx ← begin_encrypt key iv
    ctx ← unless_empty c.encrypt_aad aad ctx
    written ← c.encrypt_update payload (to_int (length payload)) ctx
    last ← c.encrypt_final written.0
    tag ← c.get_tag tag_size last.0
    some (written.1 ++ last.1, tag)

  -- The ciphertext, and the tag that the caller finds in its argument.
  unfoldable pub encrypt_data : Bytes → Bytes → Bytes → Bytes → Expected (Bytes × Bytes)
  unfolding encrypt_steps
  encrypt_data payload key iv aad = expected (encrypt_steps payload key iv aad)

  unfoldable pub decrypt_steps : Bytes → Bytes → Bytes → Bytes → Bytes → Option Bytes
  unfolding begin_decrypt
  decrypt_steps encrypted key iv tag aad = do
    ctx ← begin_decrypt key iv
    ctx ← unless_empty c.decrypt_aad aad ctx
    written ← c.decrypt_update encrypted (to_int (length encrypted)) ctx
    ctx ← c.set_tag tag (to_int (length tag)) written.0
    last ← c.decrypt_final ctx
    some (written.1 ++ last.1)

  unfoldable pub decrypt_data : Bytes → Bytes → Bytes → Bytes → Bytes → Expected Bytes
  unfolding decrypt_steps
  decrypt_data encrypted key iv tag aad = expected (decrypt_steps encrypted key iv tag aad)
