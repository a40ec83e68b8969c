-- ===== src/Hasher/Streaming.antt =====
-- FileHasher: reading a file in buffers, and hashing one buffer at once.
use lan_send.Base.{
  ℕ, zero, suc, ◌+◌, ◌/◌, ◌≤◌, ◌<◌, ◌≡◌, refl, sym, ap, ◌∙◌, true, false, some, [], ◌∷◌, arith,
  length, take, drop, ltb, ◌==◌, if◌then◌else◌, Bool-cases, inl, inr, length-take, length-drop,
  take-append-drop,
}
use lan_send.Message.{Bytes}
use lan_send.Hasher.{
  Digest, IsStreaming, calculate_data_checksum, checksum_of_stream, digest_loop, buffer_size,
}

drop_all : (n : ℕ) (xs : Bytes) → length (take n xs) < n → take n xs ≡ xs
drop_all zero xs h = absurd (omega arith)
drop_all (suc n) [] h = refl
drop_all (suc n) (x ∷ xs) h = ap (◌∷◌ x) (drop_all n xs (omega arith))

full_read : (n : ℕ) (xs : Bytes) → (length (take n xs) == n) ≡ true → n ≤ length xs
full_read n xs h = ground (arith, length-take n xs)

short_read : (n : ℕ) (xs : Bytes) → (length (take n xs) == n) ≡ false → take n xs ≡ xs
short_read n xs h = drop_all n xs (ground (arith, length-take n xs))

fewer_rounds :
    (fuel : ℕ) (xs : Bytes)
    → buffer_size ≤ length xs
    → length xs / buffer_size < suc fuel
    → length (drop buffer_size xs) / buffer_size < fuel
fewer_rounds fuel xs long h = rw (length-drop buffer_size xs) (omega arith)

module _ (d : Digest) (law : IsStreaming d) where
  nonempty_update :
      (c : d.Ctx) (b : Bytes) → (if ltb 0 (length b) then d.update c b else c) ≡ d.update c b
  nonempty_update c [] = sym (law.update-nil c)
  nonempty_update c (x ∷ b) = ground arith

  digest_loop-eq-update :
      (fuel : ℕ) (content : Bytes) (c : d.Ctx)
      → length content / buffer_size < fuel
      → digest_loop d fuel content c ≡ some (d.update c content)
  unfolding digest_loop
  digest_loop-eq-update zero content c h = absurd (omega arith)
  digest_loop-eq-update (suc fuel) content c h =
      let buffer = take buffer_size content in
      rw (nonempty_update c buffer) (elim (Bool-cases (length buffer == buffer_size)) [
        | inl full ↦ rw full (
            digest_loop-eq-update fuel (drop buffer_size content) (d.update c buffer)
              (fewer_rounds fuel content (full_read buffer_size content full) h)
            ∙ ap some (
                law.update-append c buffer (drop buffer_size content)
                ∙ ap (d.update c) (take-append-drop buffer_size content)))
        | inr short ↦ rw short (ap some (ap (d.update c) (short_read buffer_size content short)))
      ])

  -- A file's checksum, computed over buffers of 8192 bytes, is the checksum of its whole content, for
  -- a digest that hashes the concatenation of its updates; the loop always ends.
  pub checksum_of_stream-eq-data :
      (content : Bytes) → checksum_of_stream d content ≡ some (calculate_data_checksum d content)
  unfolding checksum_of_stream calculate_data_checksum
  checksum_of_stream-eq-data content = rw (
    digest_loop-eq-update (length content / buffer_size + 1) content d.init (omega arith),
    checksum_of_stream,
  )
