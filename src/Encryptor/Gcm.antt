-- ===== src/Encryptor/Gcm.antt =====
-- What FileEncryptor relies on of the cipher contexts of OpenSSL, for AES-256-GCM.
use lan_send.Base.{
  ◌+◌, ◌-◌, ◌≤◌, ◌≢◌, none, refl, ◌∷◌, arith, ℕ, ◌^◌, ◌<◌, ◌≡◌, some, [], ◌++◌, length,
}
use lan_send.Message.{Bytes}
use lan_send.Encryptor.{
  Cipher, begin_encrypt, begin_decrypt, unless_empty, to_int, key_size, tag_size,
}

-- The longest iv in bytes that OpenSSL takes.
abbrev pub iv_limit : ℕ
iv_limit = 128

-- The most bytes that GCM encrypts under one key and iv: 2 ^ 39 - 256 bits.
abbrev pub gcm_limit : ℕ
gcm_limit = 2 ^ 36 - 32

-- A context that encrypts and one that decrypts are begun when they were set up with the same key and
-- iv, and are paired when then the same authenticated data, at most once, and the same n bytes went
-- through them. Within the limits the calls do not fail; GCM is a stream cipher, so each update writes
-- as many bytes as it reads, two updates do what one does, and the last calls write none. The tag of
-- the one context is accepted by the other, and no other tag is.
pub record IsGcm (c : Cipher) : Type 1 where
  pub Begun : c.Ctx → c.Ctx → Type 0
  pub Paired : ℕ → c.Ctx → c.Ctx → Type 0
  pub begins :
      (key iv : Bytes)
      → length key ≡ key_size
      → 0 < length iv
      → length iv ≤ iv_limit
      → (e d : c.Ctx) × (begin_encrypt c key iv ≡ some e)
        × (begin_decrypt c key iv ≡ some d)
        × Begun e d
  pub unauthenticated : (e d : c.Ctx) → Begun e d → Paired 0 e d
  pub authenticates :
      (e d : c.Ctx) (aad : Bytes)
      → Begun e d
      → length aad < 2 ^ 31
      → (e' d' : c.Ctx) × (c.encrypt_aad aad (length aad) e ≡ some e')
        × (c.decrypt_aad aad (length aad) d ≡ some d')
        × Paired 0 e' d'
  pub updates :
      (n : ℕ) (e d : c.Ctx) (block : Bytes)
      → Paired n e d
      → length block < 2 ^ 31
      → n + length block ≤ gcm_limit
      → (e' d' : c.Ctx) × (written : Bytes) × (c.encrypt_update block (length block) e
          ≡ some (e', written))
        × (c.decrypt_update written (length block) d ≡ some (d', block))
        × (length written ≡ length block)
        × Paired (n + length block) e' d'
  pub update-append :
      (e f g : c.Ctx) (a b x y : Bytes)
      → length (a ++ b) < 2 ^ 31
      → c.encrypt_update a (length a) e ≡ some (f, x)
      → c.encrypt_update b (length b) f ≡ some (g, y)
      → c.encrypt_update (a ++ b) (length (a ++ b)) e ≡ some (g, x ++ y)
  pub finishes :
      (n : ℕ) (e d : c.Ctx)
      → Paired n e d
      → (e' d' d'' : c.Ctx) × (tag : Bytes) × (c.encrypt_final e ≡ some (e', []))
        × (c.get_tag tag_size e' ≡ some tag)
        × (length tag ≡ tag_size)
        × (c.set_tag tag tag_size d ≡ some d')
        × (c.decrypt_final d' ≡ some (d'', []))
        × ((other : Bytes)
            → length other ≡ tag_size
            → other ≢ tag
            → (r : c.Ctx) × (c.set_tag other tag_size d ≡ some r) × (c.decrypt_final r ≡ none))

pub to_int_small : (n : ℕ) → n < 2 ^ 31 → to_int n ≡ n
to_int_small n h = omega arith

module _ (c : Cipher) (law : IsGcm c) where
  -- Authenticated data on both sides, of any length.
  pub authenticated :
      (e d : c.Ctx) (aad : Bytes)
      → law.Begun e d
      → length aad < 2 ^ 31
      → (e' d' : c.Ctx) × (unless_empty c c.encrypt_aad aad e ≡ some e')
        × (unless_empty c c.decrypt_aad aad d ≡ some d')
        × law.Paired 0 e' d'
  authenticated e d [] p h = (e, d, refl, refl, law.unauthenticated e d p)
  authenticated e d (x ∷ aad) p h =
      let done = law.authenticates e d (x ∷ aad) p h in rw (to_int_small (length (x ∷ aad)) h) done
