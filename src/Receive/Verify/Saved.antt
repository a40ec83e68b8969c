-- ===== src/Receive/Verify/Saved.antt =====
-- Where a verified file ends up.
use lan_send.Base.{
  lookup-assign_same, ℕ, ◌<◌, String, some, true, false, ◌≡◌, refl, sym, ap, ◌∙◌, length, ◌==◌,
  ==_refl, eq_refl, lookup, erase, arith,
}
use lan_send.Message.{Bytes}
use lan_send.Hasher.{Digest, IsStreaming, calculate_data_checksum, checksum_of_stream}
use lan_send.Hasher.Streaming.{checksum_of_stream-eq-data}
use lan_send.Naming.Fresh.{final_path-free}
use lan_send.Json.{Codec, ReadsVerify}
use lan_send.Naming.{Disk, exists, final_path}
use lan_send.Model.{VerifyIntegrityDto}
use lan_send.Http.{RequestLine, Body, ok}
use lan_send.Receive.{
  ReceiveSessionStatus, ReceiveFileContext, ReceiveController, Outcome, recover,
  check_session_completion,
}
use lan_send.Receive.Attempt.{returned}
use lan_send.Receive.Chunk.{content_of}
use lan_send.Receive.Chunk.Storage.{IsCut, Holds-complete}
use lan_send.Receive.Chunk.Outcomes.{Expects}
use lan_send.Receive.Temporary.{NotTemp}
use lan_send.Receive.Frame.{Keeps, feedback-Keeps, check_session_completion-Keeps}
use lan_send.Receive.Verify.{
  VerifyIo, move_file, save_file, finish_file, check_file, process_verify, on_verify_integrity,
}

-- The answer is 200, and `path` holds `content`.
unfoldable pub Saves : String → Bytes → ReceiveController × Outcome → Type 0
Saves path content (c, Outcome.responded res) =
    (res.status ≡ 200) × (lookup path c.disk ≡ some content)
Saves path content (c, Outcome.threw e) = false ≡ true

returned-Saves :
    (path : String) (content : Bytes) (req : RequestLine) (c : ReceiveController)
    → Keeps path content c
    → Saves path content (recover req (returned c (ok req (Body.text "ok"))))
unfolding Saves recover
returned-Saves path content req c h = (refl, h.stands)

present : (p : String) (disk : Disk) → 0 < length (content_of p disk) → exists p disk ≡ true
unfolding exists
present p disk h = ground arith

moved :
    (file : ReceiveFileContext) (path : String) (content : Bytes) (c : ReceiveController)
    → content_of file.temp_file_path c.disk ≡ content
    → NotTemp path c.received_files
    → Keeps path content (move_file file path c)
unfolding move_file
moved file path content c e apart = record {
  stands =
      lookup-assign_same path (content_of file.temp_file_path c.disk)
        (erase file.temp_file_path c.disk)
      ∙ ap some e;
  apart = apart;
}

saved :
    (file : ReceiveFileContext) (path : String) (content : Bytes) (c : ReceiveController)
    → content_of file.temp_file_path c.disk ≡ content
    → NotTemp path c.received_files
    → Keeps path content (save_file file path c)
unfolding save_file
saved file path content c e apart =
    feedback-Keeps path content _ _ (moved file path content c e apart)

check_file-passes :
    (d : Digest) (io : VerifyIo) (req : RequestLine) (dto : VerifyIntegrityDto)
    (file : ReceiveFileContext) (c : ReceiveController)
    → length file.received_chunks ≡ file.total_chunks
    → exists file.temp_file_path c.disk ≡ true
    → io.can_read ≡ true
    → checksum_of_stream d (content_of file.temp_file_path c.disk) ≡ some file.file_checksum
    → check_file d io req dto file c ≡ finish_file io req file c
unfolding check_file finish_file
check_file-passes d io req dto file c full here reads hash =
    let same : (length file.received_chunks == file.total_chunks) ≡ true =
      ap (◌==◌ (length file.received_chunks)) (sym full) ∙ ==_refl (length file.received_chunks) in
    rw (check_file, same, here, reads, hash, eq_refl file.file_checksum) refl

process_verify-passes :
    (d : Digest) (io : VerifyIo) (req : RequestLine) (dto : VerifyIntegrityDto)
    (file : ReceiveFileContext) (c : ReceiveController)
    → c.session_id ≡ dto.session_id
    → lookup dto.file_id c.received_files ≡ some file
    → file.file_token ≡ dto.file_token
    → process_verify d io req dto c ≡ check_file d io req dto file c
unfolding process_verify
process_verify-passes d io req dto file c session registered token =
    ground (arith, session, registered, token, eq_refl dto.session_id, eq_refl dto.file_token)

-- The requests of a verification that has nothing to complain about.
module _ (d : Digest) (content : Bytes) (path : String) (file : ReceiveFileContext)
    (c : ReceiveController) (io : VerifyIo) (req : RequestLine)
    (stored : content_of file.temp_file_path c.disk ≡ content)
    (apart : NotTemp path c.received_files) (renames : io.can_rename ≡ true)
    (named : final_path c.disk c.save_dir file.file_name ≡ some path) where
  finish_file-Saves : Saves path content (recover req (finish_file io req file c))
  finish_file-Saves =
      let done : finish_file io req file c
          ≡ returned (check_session_completion (save_file file path c)) (ok req (Body.text "ok")) =
        unfold finish_file in ground (arith, named, renames) in
      rw done (
        returned-Saves path content req _
          (check_session_completion-Keeps path content _ (saved file path content c stored apart)))

  check_file-Saves :
      (dto : VerifyIntegrityDto)
      → IsStreaming d
      → io.can_read ≡ true
      → 0 < length content
      → length file.received_chunks ≡ file.total_chunks
      → file.file_checksum ≡ calculate_data_checksum d content
      → Saves path content (recover req (check_file d io req dto file c))
  check_file-Saves dto streaming reads nonempty full sum =
      let here = present file.temp_file_path c.disk (rw stored nonempty) in
      let hash : checksum_of_stream d (content_of file.temp_file_path c.disk)
          ≡ some file.file_checksum =
        ap (checksum_of_stream d) stored
        ∙ checksum_of_stream-eq-data d streaming content
        ∙ ap some (sym sum) in
      rw (check_file-passes d io req dto file c full here reads hash) finish_file-Saves

on_verify_integrity-open :
    (d : Digest) (json : Codec) (io : VerifyIo) (req : RequestLine) (dto : VerifyIntegrityDto)
    (c : ReceiveController)
    → c.session_status ≡ ReceiveSessionStatus.working
    → c.has_cancel_condition ≡ true
    → ReadsVerify json dto
    → on_verify_integrity d json io false req (json.dump (json.to_verify_integrity dto)) c
      ≡ recover req (process_verify d io req dto c)
unfolding on_verify_integrity
on_verify_integrity-open d json io req dto c working asks faithful =
    let parsed = faithful.parsed in
    let read = faithful.read in ground (arith, working, asks, parsed, read)

-- When every block of a registered file was counted, an honest verification request is answered 200,
-- and the path that was chosen for the file, which was free before, holds exactly the sender's
-- content. The file is not empty and has the checksum that the sender announced, the user does not
-- cancel, the temporary file can be read and renamed, and the chosen path is no temporary path of
-- the session.
pub on_verify_integrity-Saves :
    (content : Bytes) (k total : ℕ) (session_id file_id path : String) (file : ReceiveFileContext)
    (d : Digest) (json : Codec) (c : ReceiveController) (io : VerifyIo) (req : RequestLine)
    → IsCut content k total
    → IsStreaming d
    → ReadsVerify json
        (record { session_id = session_id; file_id = file_id; file_token = file.file_token })
    → io.can_read ≡ true
    → io.can_rename ≡ true
    → 0 < length content
    → Expects content k total session_id file_id c file
    → length file.received_chunks ≡ total
    → file.total_chunks ≡ total
    → file.file_checksum ≡ calculate_data_checksum d content
    → final_path c.disk c.save_dir file.file_name ≡ some path
    → NotTemp path c.received_files
    → (exists path c.disk ≡ false)
      × Saves path content (
          on_verify_integrity d json io false req
            (json.dump (
              json.to_verify_integrity (record {
                session_id = session_id;
                file_id = file_id;
                file_token = file.file_token;
              })))
            c)
on_verify_integrity-Saves content k total session_id file_id path file d json c io req cut streaming
      faithful reads renames nonempty h full announced sum named apart =
    let dto : VerifyIntegrityDto = record {
      session_id = session_id;
      file_id = file_id;
      file_token = file.file_token;
    } in
    let stored =
      Holds-complete content k total cut file.received_chunks
        (content_of file.temp_file_path c.disk) h.holds full in
    let run =
      check_file-Saves d content path file c io req stored apart renames named dto streaming reads
        nonempty (full ∙ sym announced) sum in
    (
      final_path-free c.disk c.save_dir file.file_name named,
      rw
          (
            on_verify_integrity-open d json io req dto c h.working h.asks faithful,
            process_verify-passes d io req dto file c h.session h.registered refl,
          )
          run,
    )
