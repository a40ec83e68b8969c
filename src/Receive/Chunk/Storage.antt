-- ===== src/Receive/Chunk/Storage.antt =====
-- What the temporary file holds while the blocks of a file arrive, in any order and any number of
-- times.
use native.Mathlib.Nat.{div-add-mod', div-lt_iff_lt-mul, mod-lt}
use lan_send.Base.{
  false≢true, ◌⊎◌, dec_lt, ==→≡, ℕ, ◌+◌, ◌-◌, ◌*◌, ◌/◌, ◌%◌, ◌^◌, ◌≤◌, ◌<◌, ◌≡◌, sym, ◌∙◌, true,
  false, ◌==◌, ltb, if◌then◌else◌, List, [], ◌∷◌, length, get_or, arith, Bool-cases, inl, inr,
  eq_of_get_or,
}
use lan_send.Message.{Bytes}
use lan_send.Disk.{write_at}
use lan_send.Disk.Blocks.{
  block_at, length-block_at, get_or-block_at, get_or-write_at, length-write_at,
}
use lan_send.Receive.Chunk.{contains, insert, chunk_offset}
use lan_send.Receive.Chunk.Indexes.{
  Distinct, AllBelow, contains-insert, insert-Distinct, insert-AllBelow, contains_all,
}

-- `stored` holds those blocks of `content`, cut into blocks of `k` bytes, whose indexes are in
-- `received`: it is not longer than the content, and has each byte of each received block.
pub record Holds (content : Bytes) (k total : ℕ) (received : List ℕ) (stored : Bytes) : Type 0 where
  pub distinct : Distinct received
  pub below : AllBelow total received
  pub fits : length stored ≤ length content
  pub bytes :
      (i j : ℕ)
      → contains i received ≡ true
      → j < k
      → i * k + j < length content
      → (i * k + j < length stored) × (get_or stored (i * k + j) 0 ≡ get_or content (i * k + j) 0)

-- The sender's cut: every byte lies in a block, every block has a byte, and offsets fit std::size_t.
pub record IsCut (content : Bytes) (k total : ℕ) : Type 0 where
  pub positive : 0 < k
  pub covers : length content ≤ total * k
  pub inside : (i : ℕ) → i < total → i * k < length content
  pub sized : length content < 2 ^ 64

pub Holds-nothing : (content : Bytes) (k total : ℕ) → Holds content k total [] []
unfolding contains
Holds-nothing content k total = record {
  distinct = tt;
  below = tt;
  fits = omega arith;
  bytes = λ i j h. absurd (false≢true h);
}

apart_above : (k j i n : ℕ) → n < i → n * k + k ≤ i * k + j
apart_above k j i n h = grind arith

in_block :
    (o j : ℕ) (block : Bytes) (x y : ℕ)
    → j < length block
    → (if ltb (o + j) o
        then x
        else if ltb (o + j) (o + length block)
        then get_or block (o + j - o) 0
        else y)
      ≡ get_or block j 0
in_block o j block x y h = let e : o + j - o ≡ j = omega arith in rw e (ground arith)

off_block :
    (o q len : ℕ) (x y : ℕ)
    → (q < o) ⊎ (o + len ≤ q)
    → (if ltb q o then x else if ltb q (o + len) then y else x) ≡ x
off_block o q len x y h = ground arith

long_enough :
    (xs ys : Bytes)
    → length xs ≤ length ys
    → ((p : ℕ) → p < length ys → p < length xs)
    → length xs ≡ length ys
long_enough xs [] h all = omega arith
long_enough xs (y ∷ ys) h all = let last = all (length ys) (omega arith) in omega arith

module _ (content : Bytes) (k total : ℕ) (cut : IsCut content k total) where
  chunk_offset_exact : (i : ℕ) → i < total → chunk_offset i k ≡ i * k
  unfolding chunk_offset
  chunk_offset_exact i h = omega (arith, cut.inside i h, cut.sized)

  block_nonempty : (i : ℕ) → i < total → 0 < length (block_at content k i)
  block_nonempty i h = omega (arith, length-block_at content k i, cut.inside i h, cut.positive)

  blocks_apart :
      (i n j : ℕ) → j < k → (i == n) ≡ false → (i * k + j < n * k) ⊎ (n * k + k ≤ i * k + j)
  blocks_apart i n j h e = elim (dec_lt i n) [
    | yes below ↦ inl (grind arith)
    | no above ↦ inr (apart_above k j i n (ground arith))
  ]

  -- The written block's own bytes.
  byte_inside :
      (i j : ℕ) (stored : Bytes)
      → i < total
      → j < k
      → i * k + j < length content
      → (i * k + j < length (write_at (i * k) (block_at content k i) stored))
        × (get_or (write_at (i * k) (block_at content k i) stored) (i * k + j) 0
            ≡ get_or content (i * k + j) 0)
  byte_inside i j stored lt inside within =
      let long = length-block_at content k i in
      (
        omega (
          arith,
          long,
          length-write_at (i * k) (block_at content k i) stored (block_nonempty i lt),
        ),
        get_or-write_at (i * k) (block_at content k i) stored (i * k + j)
            ∙ in_block (i * k) j (block_at content k i) (get_or stored (i * k + j) 0)
                (get_or stored (i * k + j) 0) (omega (arith, long))
            ∙ get_or-block_at content k i j inside,
      )

  -- A byte of another block that was there before.
  byte_outside :
      (i q : ℕ) (stored : Bytes)
      → i < total
      → (q < i * k) ⊎ (i * k + k ≤ q)
      → (q < length stored) × (get_or stored q 0 ≡ get_or content q 0)
      → (q < length (write_at (i * k) (block_at content k i) stored))
        × (get_or (write_at (i * k) (block_at content k i) stored) q 0 ≡ get_or content q 0)
  byte_outside i q stored lt away h = (
    omega (arith, h.0, length-write_at (i * k) (block_at content k i) stored (block_nonempty i lt)),
    get_or-write_at (i * k) (block_at content k i) stored q
        ∙ off_block (i * k) q (length (block_at content k i)) _ _
            (omega (arith, away, length-block_at content k i))
        ∙ h.1,
  )

  bytes_after :
      (i : ℕ) (received : List ℕ) (stored : Bytes)
      → i < total
      → Holds content k total received stored
      → (n j : ℕ) → contains n (insert i received) ≡ true
      → j < k
      → n * k + j < length content
      → (n * k + j < length (write_at (i * k) (block_at content k i) stored))
        × (get_or (write_at (i * k) (block_at content k i) stored) (n * k + j) 0
            ≡ get_or content (n * k + j) 0)
  bytes_after i received stored lt h n j here inside within = elim (Bool-cases (n == i)) [
    | inl same ↦
        rw (==→≡ n i same) (byte_inside i j stored lt inside (rw (==→≡ n i same) at within))
    | inr other ↦
        byte_outside i (n * k + j) stored lt (blocks_apart n i j inside other)
          (h.bytes n j (sym (rw other at (contains-insert i n received)) ∙ here) inside within)
  ]

  pub Holds-write :
      (i : ℕ) (received : List ℕ) (stored : Bytes)
      → i < total
      → Holds content k total received stored
      → Holds content k total
          (insert i received)
          (write_at (chunk_offset i k) (block_at content k i) stored)
  Holds-write i received stored lt h = rw (chunk_offset_exact i lt) (record {
    distinct = insert-Distinct i received h.distinct;
    below = insert-AllBelow total i received lt h.below;
    fits = omega (
      arith,
      length-write_at (i * k) (block_at content k i) stored (block_nonempty i lt),
      length-block_at content k i,
      h.fits,
      cut.inside i lt,
    );
    bytes = bytes_after i received stored lt h;
  })

  byte_of_complete :
      (received : List ℕ) (stored : Bytes)
      → Holds content k total received stored
      → length received ≡ total
      → (p : ℕ) → p < length content
      → (p < length stored) × (get_or stored p 0 ≡ get_or content p 0)
  byte_of_complete received stored h full p lt =
      let split : p / k * k + p % k ≡ p = div-add-mod' p k in
      let index : p / k < total =
        (div-lt_iff_lt-mul {k = k} {x = p} {y = total} cut.positive).1
          (omega (arith, cut.covers)) in
      let byte =
        h.bytes (p / k) (p % k) (contains_all total (p / k) received h.distinct h.below full index)
          (mod-lt p cut.positive) (rw split lt) in
      rw split at byte

  -- When as many blocks arrived as there are, the stored file is the content.
  pub Holds-complete :
      (received : List ℕ) (stored : Bytes)
      → Holds content k total received stored
      → length received ≡ total
      → stored ≡ content
  Holds-complete received stored h full =
      let byte = byte_of_complete received stored h full in
      eq_of_get_or 0 stored content (long_enough stored content h.fits (λ p lt. (byte p lt).0))
        (λ p lt. (byte p lt).1)
