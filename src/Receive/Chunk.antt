-- ===== src/Receive/Chunk.antt =====
-- ReceiveController::onSendChunk (receive_controller.cc, lines 218 to 352).
pub mod Indexes
pub mod Next
pub mod Storage
pub mod Opened
pub mod Outcomes
pub mod Since
use lan_send.Base.{
  ℕ, ◌+◌, ◌*◌, ◌%◌, ◌^◌, String, Option, none, some, Bool, true, false, ◌==◌, not, ltb, str_eq,
  if◌then◌else◌, Assoc, lookup, assign, length, take, List, [], ◌∷◌, ◌++◌,
}
use lan_send.Message.{Bytes, parse_binary_message}
use lan_send.Hasher.{Digest, calculate_data_checksum}
use lan_send.Json.{Codec}
use lan_send.Naming.{Disk}
use lan_send.Disk.{ChunkIo, open_temp, write_at}
use lan_send.Model.{What, Feedback, SendChunkDto}
use lan_send.Http.{HttpResponse, RequestLine, Body, ok, forbidden, bad_request}
use lan_send.Receive.{
  ReceiveFileContext, ReceiveController, is_working, Outcome, Attempt, feedback, reset_to_idle,
  recover,
}
use lan_send.Receive.Attempt.{returned, raised}
use lan_send.Receive.Outcome.{responded, threw}

-- received_chunks.contains(i)
unfoldable pub contains : ℕ → List ℕ → Bool
contains i [] = false
contains i (j ∷ js) = if i == j then true else contains i js

-- received_chunks.insert(i)
unfoldable pub insert : ℕ → List ℕ → List ℕ
unfolding contains
insert i js = if contains i js then js else i ∷ js

-- current_chunk_index * chunk_size, in std::size_t
unfoldable pub chunk_offset : ℕ → ℕ → ℕ
chunk_offset index chunk_size = (index * chunk_size) % 2 ^ 64

-- The content of an opened file.
abbrev pub content_of : String → Disk → Bytes
content_of path disk = elim (lookup path disk) [ none ↦ [] | some content ↦ content ]

unfoldable pub count_chunk :
    SendChunkDto → ReceiveFileContext → ReceiveController → ReceiveController
count_chunk dto file c = record c {
  received_files =
      assign dto.file_id
        (record file { received_chunks = insert dto.current_chunk_index file.received_chunks })
        c.received_files;
}

-- The bookkeeping after a block was written, and the answer.
unfoldable pub record_chunk :
    RequestLine → SendChunkDto → ReceiveFileContext → ReceiveController → Attempt
record_chunk req dto file c =
    returned
      (feedback
        (Feedback.file_receiving_progress c.session_id file.file_name
          (length (insert dto.current_chunk_index file.received_chunks)) file.total_chunks)
        (count_chunk dto file c))
      (ok req (Body.text "ok"))

-- The block goes to the temporary file; a device that is full takes a part of it.
unfoldable pub write_chunk :
    ChunkIo → RequestLine → SendChunkDto → Bytes → ReceiveFileContext → ReceiveController → Attempt
write_chunk io req dto block file c = elim (open_temp io file.temp_file_path c.disk) [
  | none ↦ raised c (What.create_temp_failed file.temp_file_path file.file_name)
  | some opened ↦
      let old = content_of file.temp_file_path opened in
      let new =
        write_at (chunk_offset dto.current_chunk_index file.chunk_size) (take io.room block) old in
      let c' = record c { disk = assign file.temp_file_path new opened } in
      if ltb io.room (length block)
      then raised c' (What.write_temp_failed file.temp_file_path file.file_name)
      else record_chunk req dto file c'
]

module _ (json : Codec) where
  -- ParseBinaryMessage and from_json.
  unfoldable pub read_chunk : Bytes → Option (SendChunkDto × Bytes)
  read_chunk body = elim (parse_binary_message json.parse body) [
    | none ↦ none
    | some (metadata, block) ↦ elim (json.from_send_chunk metadata) [
      | none ↦ none
      | some dto ↦ some (dto, block)
    ]
  ]

module _ (d : Digest) where
  -- The file is registered under the id of the message.
  unfoldable pub accept_chunk :
      ChunkIo
      → RequestLine
      → SendChunkDto
      → Bytes
      → ReceiveFileContext
      → ReceiveController
      → Attempt
  accept_chunk io req dto block file c =
      if not (str_eq file.file_token dto.file_token)
      then raised c (What.invalid_file_token dto.file_id dto.session_id)
      else if contains dto.current_chunk_index file.received_chunks
      then returned c (ok req (Body.text ""))
      else if not (str_eq (calculate_data_checksum d block) dto.chunk_checksum)
      then raised c (What.chunk_checksum_mismatch dto.file_id dto.session_id)
      else write_chunk io req dto block file c

  -- The session and the file that the message names.
  unfoldable pub process_chunk :
      ChunkIo → RequestLine → SendChunkDto → Bytes → ReceiveController → Attempt
  process_chunk io req dto block c =
      if not (str_eq dto.session_id c.session_id)
      then raised c (What.literal "Session ID mismatch")
      else elim (lookup dto.file_id c.received_files) [
        | none ↦ raised c (What.invalid_file_id dto.file_id dto.session_id)
        | some file ↦ accept_chunk io req dto block file c
      ]

  module _ (json : Codec) where
    -- `cancelled` is what cancel_condition_ answers when it is called.
    unfoldable pub on_send_chunk :
        ChunkIo → Bool → RequestLine → Bytes → ReceiveController → ReceiveController × Outcome
    on_send_chunk io cancelled req body c =
        if not (is_working c.session_status)
        then (c, responded (forbidden req (Body.text "sender cancelled")))
        else if not c.has_cancel_condition
        then (c, threw (What.literal "bad_function_call"))
        else if cancelled
        then (reset_to_idle c, responded (forbidden req (Body.text "receiver cancelled")))
        else elim (read_chunk json body) [
          | none ↦ (c, responded (bad_request req (Body.text "invalid data")))
          | some (dto, block) ↦ recover req (process_chunk io req dto block c)
        ]
