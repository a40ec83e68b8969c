-- ===== src/Encryptor/OnFiles/Paired.antt =====
-- FileEncryptor: the loops of EncryptFileA and DecryptFileA over the same content.
use lan_send.Base.{
  ◌+◌, ◌≤◌, ℕ, zero, suc, ◌/◌, ◌^◌, ◌≤◌, ◌<◌, ◌≡◌, refl, ap, subst, ◌∙◌, Option, some, true, false,
  [], ◌∷◌, ◌++◌, arith, length, take, drop, ltb, ◌==◌, Bool-cases, inl, inr, length-take,
  length-drop, length-append, take-append-drop, take-append_length, drop-append_length,
  append_assoc, ltb→lt,
}
use lan_send.Message.{Bytes}
use lan_send.Encryptor.{Cipher, block_size}
use lan_send.Encryptor.Gcm.{IsGcm, gcm_limit, to_int_small}
use lan_send.Encryptor.OnFiles.{block_loop}

take_all : (n : ℕ) (xs : Bytes) → length xs < n → take n xs ≡ xs
take_all zero xs h = absurd (omega arith)
take_all (suc n) [] h = refl
take_all (suc n) (x ∷ xs) h = ap (◌∷◌ x) (take_all n xs (omega arith))

take_front : (n : ℕ) (xs ys : Bytes) → length xs ≡ n → take n (xs ++ ys) ≡ xs
take_front n xs ys e = subst (λ k. take k (xs ++ ys) ≡ xs) e (take-append_length xs ys)

drop_front : (n : ℕ) (xs ys : Bytes) → length xs ≡ n → drop n (xs ++ ys) ≡ ys
drop_front n xs ys e = subst (λ k. drop k (xs ++ ys) ≡ ys) e (drop-append_length xs ys)

not_less : (n m : ℕ) → ltb n m ≡ false → m ≤ n
not_less n m h = ground arith

is_full : (n : ℕ) → n ≡ block_size → (n == block_size) ≡ true
is_full n h = ground arith

is_short : (n : ℕ) → n < block_size → (n == block_size) ≡ false
is_short n h = ground arith

module _ {Ctx : Type 0} (update : Bytes → ℕ → Ctx → Option (Ctx × Bytes)) where
  loop_full :
      (fuel : ℕ) (buffer rest : Bytes) (c c' : Ctx) (written out : Bytes)
      → length buffer ≡ block_size
      → update buffer (length buffer) c ≡ some (c', written)
      → block_loop update (suc fuel) (buffer ++ rest) c out
        ≡ block_loop update fuel rest c' (out ++ written)
  unfolding block_loop
  loop_full fuel buffer rest c c' written out full e =
      rw
        (
          block_loop,
          take_front block_size buffer rest full,
          to_int_small (length buffer) (omega arith),
          e,
          take_front block_size buffer rest full,
          is_full (length buffer) full,
          drop_front block_size buffer rest full,
        )
        refl

  loop_short :
      (fuel : ℕ) (buffer : Bytes) (c c' : Ctx) (written out : Bytes)
      → length buffer < block_size
      → update buffer (length buffer) c ≡ some (c', written)
      → block_loop update (suc fuel) buffer c out ≡ some (some c', out ++ written)
  unfolding block_loop
  loop_short fuel buffer c c' written out short e =
      rw
        (
          block_loop,
          take_all block_size buffer short,
          to_int_small (length buffer) (omega arith),
          e,
          take_all block_size buffer short,
          is_short (length buffer) short,
        )
        refl

module _ (c : Cipher) (law : IsGcm c) where
  -- What the two loops do from paired contexts: the one writes what the other reads, and as much in
  -- all as one update would.
  pub record Loops (fuel n : ℕ) (content : Bytes) (e d : c.Ctx) (out back : Bytes) : Type 0 where
    pub e' : c.Ctx
    pub d' : c.Ctx
    pub encrypted : Bytes
    pub encrypts : block_loop c.encrypt_update fuel content e out ≡ some (some e', out ++ encrypted)
    pub decrypts :
        block_loop c.decrypt_update fuel encrypted d back ≡ some (some d', back ++ content)
    pub same_length : length encrypted ≡ length content
    pub paired : law.Paired (n + length content) e' d'
    pub whole :
        length content < 2 ^ 31 → c.encrypt_update content (length content) e ≡ some (e', encrypted)

  short_Loops :
      (fuel n : ℕ) (content : Bytes) (e d : c.Ctx) (out back : Bytes)
      → law.Paired n e d
      → n + length content ≤ gcm_limit
      → length content < block_size
      → Loops (suc fuel) n content e d out back
  short_Loops fuel n content e d out back p within short =
      let u = law.updates n e d content p (omega arith) within in
      record {
        e' = u.0;
        d' = u.1;
        encrypted = u.2;
        encrypts = loop_short c.encrypt_update fuel content e u.0 u.2 out short u.3;
        decrypts =
            loop_short c.decrypt_update fuel u.2 d u.1 content back (rw u.5 short) (rw u.5 u.4);
        same_length = u.5;
        paired = u.6;
        whole = λ _. u.3;
      }

  full_Loops :
      (fuel n : ℕ) (buffer rest : Bytes) (e d : c.Ctx) (out back : Bytes)
      → law.Paired n e d
      → n + length (buffer ++ rest) ≤ gcm_limit
      → length buffer ≡ block_size
      → ((e' d' : c.Ctx) (out' back' : Bytes)
          → law.Paired (n + length buffer) e' d'
          → (n + length buffer) + length rest ≤ gcm_limit
          → Loops fuel (n + length buffer) rest e' d' out' back')
      → Loops (suc fuel) n (buffer ++ rest) e d out back
  full_Loops fuel n buffer rest e d out back p within full later =
      let u =
        law.updates n e d buffer p (omega arith)
          (omega (arith, length-append buffer rest, within)) in
      let l =
        later u.0 u.1 (out ++ u.2) (back ++ buffer) u.6
          (omega (arith, length-append buffer rest, within)) in
      record {
        e' = l.e';
        d' = l.d';
        encrypted = u.2 ++ l.encrypted;
        encrypts =
            loop_full c.encrypt_update fuel buffer rest e u.0 u.2 out full u.3
            ∙ l.encrypts
            ∙ ap (λ o. some (some l.e', o)) (append_assoc out u.2 l.encrypted);
        decrypts =
            loop_full c.decrypt_update fuel u.2 l.encrypted d u.1 buffer back (u.5 ∙ full)
              (rw u.5 u.4)
            ∙ l.decrypts
            ∙ ap (λ o. some (some l.d', o)) (append_assoc back buffer rest);
        same_length =
            omega
              (arith, length-append u.2 l.encrypted, length-append buffer rest, u.5, l.same_length);
        paired =
            subst (λ m. law.Paired m l.e' l.d') (omega (arith, length-append buffer rest)) l.paired;
        whole = λ small.
            let fits : length rest < 2 ^ 31 = omega (arith, length-append buffer rest, small) in
            law.update-append e u.0 l.e' buffer rest u.2 l.encrypted small u.3 (l.whole fits);
      }

  pub block_loop-Loops :
      (fuel n : ℕ) (content : Bytes) (e d : c.Ctx) (out back : Bytes)
      → law.Paired n e d
      → n + length content ≤ gcm_limit
      → length content / block_size < fuel
      → Loops fuel n content e d out back
  block_loop-Loops zero n content e d out back p within h = absurd (omega arith)
  block_loop-Loops (suc fuel) n content e d out back p within h =
      elim (Bool-cases (ltb (length content) block_size)) [
        | inl short ↦ short_Loops fuel n content e d out back p within (ltb→lt _ _ short)
        | inr long ↦
            let enough = not_less (length content) block_size long in
            let rest = drop block_size content in
            let split = take-append-drop block_size content in
            subst (λ xs. Loops (suc fuel) n xs e d out back) split
              (full_Loops fuel n (take block_size content) rest e d out back p (rw split within)
                (length-take block_size content ∙ (omega arith))
                (λ e' d' out' back' p' within'.
                  block_loop-Loops fuel (n + length (take block_size content)) rest e' d' out' back'
                    p' within' (rw (length-drop block_size content) (omega arith))))
      ]
