-- ===== src/Disk/Blocks.antt =====
-- What a write at an offset changes, byte by byte.
use lan_send.Base.{
  ℕ, ◌+◌, ◌-◌, ◌*◌, ◌<◌, min, max, ◌≡◌, ap, ◌∙◌, [], ◌∷◌, ◌++◌, length, take, drop, replicate,
  get_or, ltb, if◌then◌else◌, arith, length-append, length-take, length-drop, length-replicate,
  get_or-append, get_or-take, get_or-drop, get_or-replicate, get_or_past,
}
use lan_send.Message.{Bytes}
use lan_send.Disk.{write_at}

get_or_padded :
    (content : Bytes) (n p : ℕ) → get_or (content ++ replicate n 0) p 0 ≡ get_or content p 0
get_or_padded content n p = ground (
  arith,
  get_or-append content (replicate n 0) p 0,
  get_or-replicate {A = ℕ} n (p - length content) 0,
  get_or_past content p 0,
)

length_front :
    (offset : ℕ) (content : Bytes)
    → length (take offset (content ++ replicate (offset - length content) 0)) ≡ offset
length_front offset content = omega (
  arith,
  length-take offset (content ++ replicate (offset - length content) 0),
  length-append content (replicate (offset - length content) 0),
  length-replicate {A = ℕ} (offset - length content) 0,
)

-- The file grows to the end of the block and is never cut.
pub length-write_at :
    (offset : ℕ) (block content : Bytes)
    → 0 < length block
    → length (write_at offset block content) ≡ max (length content) (offset + length block)
unfolding write_at
length-write_at offset [] content h = absurd (omega arith)
length-write_at offset (b ∷ block) content h =
    let front = take offset (content ++ replicate (offset - length content) 0) in
    let back = drop (offset + length (b ∷ block)) content in
    omega (
      arith,
      length_front offset content,
      length-append front ((b ∷ block) ++ back),
      length-append (b ∷ block) back,
      length-drop (offset + length (b ∷ block)) content,
    )

-- A byte below or above the block keeps its value, and one inside has the block's.
pub get_or-write_at :
    (offset : ℕ) (block content : Bytes) (p : ℕ)
    → get_or (write_at offset block content) p 0 ≡ (
        if ltb p offset
        then get_or content p 0
        else if ltb p (offset + length block)
        then get_or block (p - offset) 0
        else get_or content p 0)
unfolding write_at
get_or-write_at offset [] content p = ground arith
get_or-write_at offset (b ∷ block) content p =
    let padded = content ++ replicate (offset - length content) 0 in
    let back = drop (offset + length (b ∷ block)) content in
    ground (
      arith,
      length_front offset content,
      get_or-append (take offset padded) ((b ∷ block) ++ back) p 0,
      get_or-take offset padded p 0,
      get_or_padded content (offset - length content) p,
      get_or-append (b ∷ block) back (p - offset) 0,
      get_or-drop (offset + length (b ∷ block)) content (p - offset - length (b ∷ block)) 0,
    )

-- The i-th block of a content cut into blocks of k bytes; the last one may be shorter.
abbrev pub block_at : Bytes → ℕ → ℕ → Bytes
block_at content k i = take k (drop (i * k) content)

pub length-block_at :
    (content : Bytes) (k i : ℕ) → length (block_at content k i) ≡ min k (length content - i * k)
length-block_at content k i =
    length-take k (drop (i * k) content) ∙ ap (min k) (length-drop (i * k) content)

pub get_or-block_at :
    (content : Bytes) (k i j : ℕ)
    → j < k
    → get_or (block_at content k i) j 0 ≡ get_or content (i * k + j) 0
get_or-block_at content k i j h =
    ground (arith, get_or-take k (drop (i * k) content) j 0, get_or-drop (i * k) content j 0)
