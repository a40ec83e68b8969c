-- ===== src/Tests/Encrypting.antt =====
-- A cipher that adds one to each byte, with a tag that repeats the number of bytes.
use lan_send.Base.{
  ℕ, ◌+◌, ◌-◌, ◌≡◌, ◌≢◌, refl, ap, ◌∙◌, some, none, Bool, true, false, length, replicate, ◌==◌,
  ==_refl, ◌&&◌, if◌then◌else◌, map, [], ◌∷◌, ◌++◌, arith, length-append, length-replicate,
  some_inj, Bool-cases, inl, inr, lookup, assign,
}
use lan_send.Message.{Bytes}
use lan_send.Naming.{Disk}
use lan_send.Encryptor.{
  Cipher, Expected, EncryptError, encrypt_data, decrypt_data, begin_encrypt, begin_decrypt,
  tag_size,
}
use lan_send.Encryptor.Gcm.{IsGcm}
use lan_send.Encryptor.RoundTrip.{decrypt_data-encrypt_data}
use lan_send.Encryptor.OnFiles.{encrypt_file}
use lan_send.Encryptor.OnFiles.RoundTrip.{
  Leaves, decrypt_file-encrypt_file, encrypt_file-eq-data, encrypt_file-in_place,
}

abbrev same_bytes : Bytes → Bytes → Bool
same_bytes [] [] = true
same_bytes [] (y ∷ ys) = false
same_bytes (x ∷ xs) [] = false
same_bytes (x ∷ xs) (y ∷ ys) = (x == y) && same_bytes xs ys

same_bytes→≡ : (xs ys : Bytes) → same_bytes xs ys ≡ true → xs ≡ ys
same_bytes→≡ [] [] h = refl
same_bytes→≡ [] (y ∷ ys) h = absurd (cc)
same_bytes→≡ (x ∷ xs) [] h = absurd (cc)
same_bytes→≡ (x ∷ xs) (y ∷ ys) h = ground (arith, same_bytes→≡ xs ys)

same_bytes_refl : (xs : Bytes) → same_bytes xs xs ≡ true
same_bytes_refl [] = refl
same_bytes_refl (x ∷ xs) = rw (==_refl x, same_bytes_refl xs) refl

abbrev Counter : Type 0
Counter = ℕ × Bytes

abbrev shifted : Cipher
shifted = record {
  Ctx = Counter;
  new = some (0, []);
  encrypt_init = λ ctx. some ctx;
  decrypt_init = λ ctx. some ctx;
  set_ivlen = λ n ctx. some ctx;
  encrypt_key = λ key iv ctx. some ctx;
  decrypt_key = λ key iv ctx. some ctx;
  encrypt_aad = λ aad n ctx. some (ctx.0 + n, []);
  decrypt_aad = λ aad n ctx. some (ctx.0 + n, []);
  encrypt_update = λ b n ctx. some ((ctx.0 + n, []), map (λ x. x + 1) b);
  decrypt_update = λ b n ctx. some ((ctx.0 + n, []), map (λ x. x - 1) b);
  encrypt_final = λ ctx. some (ctx, []);
  decrypt_final =
      λ ctx. if same_bytes ctx.1 (replicate tag_size ctx.0) then some (ctx, []) else none;
  get_tag = λ n ctx. some (replicate n ctx.0);
  set_tag = λ tag n ctx. some (ctx.0, tag);
}

unshifted : (xs : Bytes) → map (λ x. x - 1) (map (λ x. x + 1) xs) ≡ xs
unshifted [] = refl
unshifted (x ∷ xs) = rw (unshifted xs) (ap (λ y. y ∷ xs) (omega arith))

length-shifted : (xs : Bytes) → length (map (λ x. x + 1) xs) ≡ length xs
length-shifted [] = refl
length-shifted (x ∷ xs) = omega (arith, length-shifted xs)

shifted-append :
    (xs ys : Bytes) → map (λ x. x + 1) (xs ++ ys) ≡ map (λ x. x + 1) xs ++ map (λ x. x + 1) ys
shifted-append [] ys = refl
shifted-append (x ∷ xs) ys = ap (λ l. (x + 1) ∷ l) (shifted-append xs ys)

-- Two updates, and the one of all the bytes.
shifted_update :
    (e f g : Counter) (a b x y : Bytes)
    → shifted.encrypt_update a (length a) e ≡ some (f, x)
    → shifted.encrypt_update b (length b) f ≡ some (g, y)
    → shifted.encrypt_update (a ++ b) (length (a ++ b)) e ≡ some (g, x ++ y)
shifted_update e f g a b x y h k =
    let first : ((e.0 + length a, []), map (λ n. n + 1) a) ≡ (f, x) = some_inj _ _ h in
    let second : ((f.0 + length b, []), map (λ n. n + 1) b) ≡ (g, y) = some_inj _ _ k in
    let count : e.0 + length (a ++ b) ≡ f.0 + length b =
      omega (arith, length-append a b, ap (λ (r : Counter × Bytes). r.0.0) first) in
    let bytes : map (λ n. n + 1) (a ++ b) ≡ x ++ y =
      shifted-append a b
      ∙ ap (λ l. l ++ map (λ n. n + 1) b) (ap (λ (r : Counter × Bytes). r.1) first)
      ∙ ap (λ l. x ++ l) (ap (λ (r : Counter × Bytes). r.1) second) in
    ap (λ n. some ((n, []), map (λ n. n + 1) (a ++ b))) count
    ∙ ap (λ l. some ((f.0 + length b, []), l)) bytes
    ∙ ap (λ q. some (q, x ++ y)) (ap (λ (r : Counter × Bytes). r.0) second)

refused :
    (n : ℕ) (other : Bytes)
    → other ≢ replicate tag_size n
    → same_bytes other (replicate tag_size n) ≡ false
refused n other differs = elim (Bool-cases (same_bytes other (replicate tag_size n))) [
  | inl e ↦ absurd (differs (same_bytes→≡ other (replicate tag_size n) e))
  | inr e ↦ e
]

begun_encrypt : (key iv : Bytes) → begin_encrypt shifted key iv ≡ some (0, [])
unfolding begin_encrypt
begun_encrypt key iv = refl

begun_decrypt : (key iv : Bytes) → begin_decrypt shifted key iv ≡ some (0, [])
unfolding begin_decrypt
begun_decrypt key iv = refl

abbrev counting : IsGcm shifted
counting = record {
  Begun = λ e d. e.0 ≡ d.0;
  Paired = λ n e d. e.0 ≡ d.0;
  unauthenticated = λ e d p. p;
  begins = λ key iv k i s. ((0, []), (0, []), begun_encrypt key iv, begun_decrypt key iv, refl);
  authenticates = λ e d aad p s.
      ((e.0 + length aad, []), (d.0 + length aad, []), refl, refl, ap (λ n. n + length aad) p);
  updates = λ n e d block p s within. (
    (e.0 + length block, []),
    (d.0 + length block, []),
    map (λ x. x + 1) block,
    refl,
    ap (λ b. some ((d.0 + length block, []), b)) (unshifted block),
    length-shifted block,
    ap (λ m. m + length block) p,
  );
  update-append = λ e f g a b x y s h k. shifted_update e f g a b x y h k;
  finishes = λ n e d p. (
    e,
    (d.0, replicate tag_size e.0),
    (d.0, replicate tag_size e.0),
    replicate tag_size e.0,
    refl,
    refl,
    length-replicate tag_size e.0,
    refl,
    rw (p, same_bytes_refl (replicate tag_size d.0)) refl,
    λ other h differs. ((d.0, other), refl, rw (refused d.0 other (rw (← p) differs)) refl),
  );
}

abbrev key : Bytes
key = replicate 32 7

abbrev iv : Bytes
iv = replicate 12 9

abbrev payload : Bytes
payload = 3 ∷ 1 ∷ 4 ∷ 1 ∷ []

abbrev disk : Disk
disk = ("/plain", payload) ∷ []

plain_found : lookup "/plain" disk ≡ some payload
unfolding lookup
plain_found = refl

decrypt_data-encrypt_data_example :
    (encrypted tag : Bytes) × (encrypt_data shifted payload key iv (2 ∷ [])
      ≡ Expected.value (encrypted, tag))
    × (length encrypted ≡ length payload)
    × (decrypt_data shifted encrypted key iv tag (2 ∷ []) ≡ Expected.value payload)
    × ((other : Bytes)
        → length other ≡ tag_size
        → other ≢ tag
        → decrypt_data shifted encrypted key iv other (2 ∷ [])
          ≡ Expected.unexpected EncryptError.openssl)
decrypt_data-encrypt_data_example =
    decrypt_data-encrypt_data shifted counting payload key iv (2 ∷ []) (omega arith) refl
      (omega arith) (omega arith) (omega arith)

decrypt_file-encrypt_file_example :
    (tag : Bytes) × (disk' : Disk) × (encrypt_file shifted true "/plain" "/sealed" key iv disk
      ≡ some (Expected.value tag, disk'))
    × (lookup "/plain" disk' ≡ some payload)
    × Leaves shifted counting "/sealed" "/back" key iv tag disk' true payload
    × ((other : Bytes)
        → length other ≡ tag_size
        → other ≢ tag
        → Leaves shifted counting "/sealed" "/back" key iv other disk' false payload)
decrypt_file-encrypt_file_example =
    decrypt_file-encrypt_file shifted counting "/plain" "/sealed" "/back" key iv payload disk
      plain_found refl refl refl (omega arith) (omega arith) (omega arith)

encrypt_file-eq-data_example :
    (encrypted tag : Bytes) × (encrypt_data shifted payload key iv []
      ≡ Expected.value (encrypted, tag))
    × (encrypt_file shifted true "/plain" "/sealed" key iv disk
        ≡ some (Expected.value tag, assign "/sealed" encrypted (assign "/sealed" [] disk)))
encrypt_file-eq-data_example =
    encrypt_file-eq-data shifted counting "/plain" "/sealed" key iv payload disk plain_found refl
      (omega arith) refl (omega arith) (omega arith)

encrypt_file-in_place_example :
    (tag : Bytes) × (disk' : Disk) × (encrypt_file shifted true "/plain" "/plain" key iv disk
      ≡ some (Expected.value tag, disk'))
    × (lookup "/plain" disk' ≡ some [])
encrypt_file-in_place_example =
    encrypt_file-in_place shifted counting "/plain" key iv payload disk plain_found refl
      (omega arith) (omega arith)
