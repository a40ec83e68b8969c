-- ===== src/Send/Cut.antt =====
-- SendSession::prepareFiles and sendFile: the cut of a file into chunks.
use lan_send.Base.{
  ℕ, ◌+◌, ◌-◌, ◌*◌, ◌^◌, ◌≤◌, min, ◌≡◌, refl, sym, ap, ◌∙◌, [], ◌∷◌, ◌++◌, length, take, replicate,
  arith, append-nil,
}
use lan_send.Message.{Bytes}
use lan_send.Disk.Blocks.{block_at, length-block_at}
use lan_send.Receive.Chunk.Storage.{IsCut}
use lan_send.Send.{TransferFileInfo, default_chunk_size}
use lan_send.Send.Prepare.{chunk_count}
use lan_send.Send.Transfer.{chunk_data}

-- For a file that is not within one chunk of the largest std::size_t, the announced number of chunks
-- is the one that covers the file with no empty chunk.
pub chunk_count-IsCut :
    (content : Bytes)
    → length content + default_chunk_size ≤ 2 ^ 64
    → IsCut content default_chunk_size (chunk_count (length content) default_chunk_size)
unfolding chunk_count default_chunk_size
chunk_count-IsCut content h = record {
  positive = omega arith;
  covers = omega (arith, h);
  inside = λ i lt. omega (arith, h, lt);
  sized = omega (arith, h);
}

take-length : (xs : Bytes) → take (length xs) xs ≡ xs
take-length [] = refl
take-length (x ∷ xs) = ap (◌∷◌ x) (take-length xs)

take_padded : (n : ℕ) (xs : Bytes) → n ≡ length xs → take n (xs ++ replicate (n - length xs) 0) ≡ xs
take_padded n xs h =
    let none_left : n - length xs ≡ 0 = omega (arith, h) in
    rw (none_left, append-nil xs, h) (take-length xs)

-- The buffer that is filled for a chunk is that block of the file.
pub chunk_data-block_at :
    (info : TransferFileInfo) (content : Bytes) (i : ℕ)
    → info.file_size ≡ length content
    → chunk_data info i (block_at content default_chunk_size i)
      ≡ block_at content default_chunk_size i
unfolding chunk_data
chunk_data-block_at info content i h =
    take_padded (min default_chunk_size (info.file_size - i * default_chunk_size))
      (block_at content default_chunk_size i)
      (ap (λ (n : ℕ). min default_chunk_size (n - i * default_chunk_size)) h
        ∙ sym (length-block_at content default_chunk_size i))
