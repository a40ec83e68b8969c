-- ===== src/Receive/Chunk/Outcomes.antt =====
-- What a chunk message of an honest sender does to the receiver.
use lan_send.Base.{
  ℕ, ◌^◌, ◌≤◌, ◌<◌, String, some, true, false, ◌≡◌, refl, length, ltb, eq_refl, if_cases, if_keeps,
  false≢true, lookup, assign, lookup-assign_same, arith,
}
use lan_send.Message.{Bytes, create_binary_message}
use lan_send.Message.RoundTrip.{parse-create}
use lan_send.Hasher.{Digest, calculate_data_checksum}
use lan_send.Json.{Codec, ReadsChunk}
use lan_send.Naming.{Disk}
use lan_send.Disk.{ChunkIo, write_at}
use lan_send.Disk.Blocks.{block_at}
use lan_send.Model.{SendChunkDto, Feedback}
use lan_send.Http.{HttpResponse, RequestLine}
use lan_send.Receive.{
  ReceiveSessionStatus, ReceiveFileContext, ReceiveController, Outcome, Attempt, feedback, recover,
}
use lan_send.Receive.Chunk.{
  contains, insert, chunk_offset, content_of, count_chunk, record_chunk, write_chunk, read_chunk,
  accept_chunk, process_chunk, on_send_chunk,
}
use lan_send.Receive.Chunk.Storage.{Holds, Holds-write, IsCut}
use lan_send.Receive.Chunk.Opened.{
  content_of-assign, open_temp-content, take_all, write_chunk-opened,
}

-- The device works: the file can be opened or created, and there is room for the block.
pub record IsGood (io : ChunkIo) (block : Bytes) : Type 0 where
  pub opens : io.can_open ≡ true
  pub creates : io.can_create ≡ true
  pub roomy : length block ≤ io.room

-- The session of this id is open, the file is registered under `file_id`, and its temporary file
-- holds the blocks of `content` that were counted.
pub record Expects (content : Bytes) (k total : ℕ) (session_id file_id : String)
    (c : ReceiveController) (file : ReceiveFileContext) : Type 0 where
  pub working : c.session_status ≡ ReceiveSessionStatus.working
  pub asks : c.has_cancel_condition ≡ true
  pub session : c.session_id ≡ session_id
  pub registered : lookup file_id c.received_files ≡ some file
  pub cut : file.chunk_size ≡ k
  pub holds : Holds content k total file.received_chunks (content_of file.temp_file_path c.disk)

-- The message of the i-th block, as the sender builds it.
abbrev pub chunk_of : Digest → String → String → String → ℕ → Bytes → SendChunkDto
chunk_of d session_id file_id file_token i block = record {
  session_id = session_id;
  file_id = file_id;
  file_token = file_token;
  current_chunk_index = i;
  chunk_checksum = calculate_data_checksum d block;
}

abbrev pub received : ℕ → ReceiveFileContext → ReceiveFileContext
received i file = record file { received_chunks = insert i file.received_chunks }

module _ (content : Bytes) (k total : ℕ) (cut : IsCut content k total) (session_id file_id : String)
    (file : ReceiveFileContext) (i : ℕ) (inside : i < total) where
  -- The answer is 200 and the block is among those that are held.
  pub Stores : Attempt → Type 0
  Stores (Attempt.returned c res) =
      (res.status ≡ 200) × Expects content k total session_id file_id c (received i file)
  Stores (Attempt.raised c e) = false ≡ true

  returned-Stores :
      (c : ReceiveController) (res : HttpResponse)
      → res.status ≡ 200
      → Expects content k total session_id file_id c (received i file)
      → Stores (Attempt.returned c res)
  unfolding Stores
  returned-Stores c res s h = (s, h)

  feedback-Expects :
      (f : Feedback) (c : ReceiveController)
      → Expects content k total session_id file_id c (received i file)
      → Expects content k total session_id file_id (feedback f c) (received i file)
  unfolding feedback
  feedback-Expects f c h =
      if_keeps
        (λ (x : ReceiveController). Expects content k total session_id file_id x (received i file))
        c.has_callback _ _
        (record {
          working = h.working;
          asks = h.asks;
          session = h.session;
          registered = h.registered;
          cut = h.cut;
          holds = h.holds;
        })
        h

  module _ (d : Digest) (c : ReceiveController)
      (h : Expects content k total session_id file_id c file) (io : ChunkIo)
      (good : IsGood io (block_at content k i)) (req : RequestLine) where
    dto : SendChunkDto
    dto = chunk_of d session_id file_id file.file_token i (block_at content k i)

    counted :
        (opened : Disk)
        → content_of file.temp_file_path opened ≡ content_of file.temp_file_path c.disk
        → Expects content k total session_id file_id
            (count_chunk dto file (record c {
              disk =
                  assign file.temp_file_path
                    (write_at
                      (chunk_offset i file.chunk_size)
                      (block_at content k i)
                      (content_of file.temp_file_path opened))
                    opened;
            }))
            (received i file)
    unfolding count_chunk dto
    counted opened same = record {
      working = h.working;
      asks = h.asks;
      session = h.session;
      registered = lookup-assign_same file_id (received i file) c.received_files;
      cut = h.cut;
      holds =
          rw (content_of-assign file.temp_file_path _ opened, same, h.cut)
            (Holds-write content k total cut i file.received_chunks _ inside h.holds);
    }

    write_chunk-Stores : Stores (write_chunk io req dto (block_at content k i) file c)
    unfolding record_chunk dto
    write_chunk-Stores =
        let (opened, e, same) =
          open_temp-content io file.temp_file_path c.disk good.opens good.creates in
        let fits : ltb io.room (length (block_at content k i)) ≡ false =
          ground (arith, good.roomy) in
        rw
          (
            write_chunk-opened io req dto (block_at content k i) file c opened e fits,
            take_all io.room (block_at content k i) good.roomy,
          )
          (returned-Stores _ _ refl (feedback-Expects _ _ (counted opened same)))

    again : contains i file.received_chunks ≡ true → received i file ≡ file
    unfolding insert
    again e = rw e refl

    accept_chunk-Stores : Stores (accept_chunk d io req dto (block_at content k i) file c)
    unfolding accept_chunk dto
    accept_chunk-Stores =
        rw (eq_refl file.file_token, eq_refl (calculate_data_checksum d (block_at content k i)))
          (if_cases Stores (contains i file.received_chunks) _ _
            (λ e. returned-Stores _ _ refl (rw (again e) h)) (λ _. write_chunk-Stores))

    process_chunk-Stores : Stores (process_chunk d io req dto (block_at content k i) c)
    unfolding process_chunk dto
    process_chunk-Stores =
        rw (process_chunk, h.session, eq_refl session_id, h.registered) accept_chunk-Stores

-- The same of a handler: it answered 200 and holds the block.
unfoldable pub Accepts :
    (content : Bytes) (k total : ℕ) (session_id file_id : String) (file : ReceiveFileContext)
    → ReceiveController × Outcome
    → Type 0
Accepts content k total session_id file_id file (c, Outcome.responded res) =
    (res.status ≡ 200) × Expects content k total session_id file_id c file
Accepts content k total session_id file_id file (c, Outcome.threw e) = false ≡ true

recover-Accepts :
    (content : Bytes) (k total : ℕ) (cut : IsCut content k total) (session_id file_id : String)
    (file : ReceiveFileContext) (i : ℕ) (inside : i < total) (req : RequestLine) (a : Attempt)
    → Stores content k total cut session_id file_id file i inside a
    → Accepts content k total session_id file_id (received i file) (recover req a)
unfolding Stores Accepts recover
recover-Accepts content k total cut session_id file_id file i inside req (Attempt.returned c res)
      h =
    h
recover-Accepts content k total cut session_id file_id file i inside req (Attempt.raised c e) h =
    absurd (false≢true h)

read_chunk-create :
    (json : Codec) (m : SendChunkDto) (block : Bytes)
    → ReadsChunk json m
    → length (json.dump (json.to_send_chunk m)) < 2 ^ 32
    → read_chunk json (create_binary_message json.dump (json.to_send_chunk m) block)
      ≡ some (m, block)
unfolding read_chunk
read_chunk-create json m block good fits =
    let parsed = parse-create json.dump json.parse (json.to_send_chunk m) block fits good.parsed in
    ground (arith, parsed, good.read)

-- In an open session, the message that an honest sender builds for the i-th block of a registered
-- file is answered 200, and afterwards the temporary file holds this block too and still every block
-- that it held, in whatever order the blocks come and also when one comes again. The user does not
-- cancel, the device works, and the metadata is shorter than 2 ^ 32 bytes.
pub on_send_chunk-stores :
    (content : Bytes) (k total : ℕ) (session_id file_id : String) (file : ReceiveFileContext)
    (i : ℕ) (d : Digest) (json : Codec) (c : ReceiveController) (io : ChunkIo) (req : RequestLine)
    → IsCut content k total
    → i < total
    → ReadsChunk json (chunk_of d session_id file_id file.file_token i (block_at content k i))
    → length (
        json.dump (
          json.to_send_chunk
            (chunk_of d session_id file_id file.file_token i (block_at content k i))))
      < 2 ^ 32
    → IsGood io (block_at content k i)
    → Expects content k total session_id file_id c file
    → Accepts content k total session_id file_id (received i file) (
        on_send_chunk d json io false req
          (create_binary_message json.dump
            (json.to_send_chunk
              (chunk_of d session_id file_id file.file_token i (block_at content k i)))
            (block_at content k i))
          c)
unfolding on_send_chunk dto
on_send_chunk-stores content k total session_id file_id file i d json c io req cut inside faithful
      fits good h =
    rw
      (
        h.working,
        h.asks,
        read_chunk-create json
            (chunk_of d session_id file_id file.file_token i (block_at content k i))
            (block_at content k i) faithful fits,
      )
      (recover-Accepts content k total cut session_id file_id file i inside req _ (
        process_chunk-Stores content k total cut session_id file_id file i inside d c h io good
          req))
