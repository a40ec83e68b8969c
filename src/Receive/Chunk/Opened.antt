-- ===== src/Receive/Chunk/Opened.antt =====
-- A temporary file that was opened, and a block that is written whole.
use lan_send.Base.{
  ℕ, zero, suc, ◌≤◌, String, none, some, true, false, ◌≡◌, refl, sym, ap, ◌∙◌, [], ◌∷◌, length,
  take, ltb, inl, inr, Option-cases, lookup, assign, lookup-assign_same, arith,
}
use lan_send.Message.{Bytes}
use lan_send.Naming.{Disk, exists}
use lan_send.Disk.{ChunkIo, open_temp, write_at}
use lan_send.Model.{SendChunkDto}
use lan_send.Http.{RequestLine}
use lan_send.Receive.{ReceiveFileContext, ReceiveController}
use lan_send.Receive.Chunk.{chunk_offset, content_of, record_chunk, write_chunk}

content_of-present :
    (p : String) (v : Bytes) (disk : Disk) → lookup p disk ≡ some v → content_of p disk ≡ v
content_of-present p v disk h = ground (arith, h)

content_of-absent : (p : String) (disk : Disk) → lookup p disk ≡ none → content_of p disk ≡ []
content_of-absent p disk h = ground (arith, h)

pub content_of-assign : (p : String) (v : Bytes) (disk : Disk) → content_of p (assign p v disk) ≡ v
content_of-assign p v disk = content_of-present p v (assign p v disk) (lookup-assign_same p v disk)

-- Opening keeps what the file holds, a file that is created holding nothing.
pub open_temp-content :
    (io : ChunkIo) (p : String) (disk : Disk)
    → io.can_open ≡ true
    → io.can_create ≡ true
    → (opened : Disk) × (open_temp io p disk ≡ some opened)
      × (content_of p opened ≡ content_of p disk)
unfolding open_temp exists
open_temp-content io p disk o w = elim (Option-cases (lookup p disk)) [
  | inr (v, e) ↦ (disk, ground (arith, e, o), refl)
  | inl e ↦ (
    assign p [] disk,
    ground (arith, e, w),
    content_of-assign p [] disk ∙ sym (content_of-absent p disk e),
  )
]

pub take_all : (n : ℕ) (xs : Bytes) → length xs ≤ n → take n xs ≡ xs
take_all zero [] h = refl
take_all zero (x ∷ xs) h = absurd (omega arith)
take_all (suc n) [] h = refl
take_all (suc n) (x ∷ xs) h = ap (◌∷◌ x) (take_all n xs (omega arith))

-- What the device takes whole is written whole.
pub write_chunk-opened :
    (io : ChunkIo) (req : RequestLine) (dto : SendChunkDto) (block : Bytes)
    (file : ReceiveFileContext) (c : ReceiveController) (opened : Disk)
    → open_temp io file.temp_file_path c.disk ≡ some opened
    → ltb io.room (length block) ≡ false
    → write_chunk io req dto block file c
      ≡ record_chunk req dto file (record c {
        disk =
            assign file.temp_file_path
              (write_at
                (chunk_offset dto.current_chunk_index file.chunk_size)
                (take io.room block)
                (content_of file.temp_file_path opened))
              opened;
      })
unfolding write_chunk
write_chunk-opened io req dto block file c opened e f = ground (arith, e, f)
