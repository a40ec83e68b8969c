-- ===== src/Receive/Verify.antt =====
-- ReceiveController::onVerifyIntegrity (receive_controller.cc, lines 354 to 492).
pub mod Saved
use lan_send.Base.{
  ℕ, ◌+◌, String, Option, none, some, Bool, true, false, ◌&&◌, ◌==◌, not, str_eq, if◌then◌else◌,
  lookup, assign, erase, length, List, [],
}
use lan_send.Message.{Bytes}
use lan_send.Hasher.{Digest, checksum_of_stream}
use lan_send.Json.{Codec, read_with}
use lan_send.Naming.{Disk, exists, final_path}
use lan_send.Model.{What, Feedback, VerifyIntegrityDto}
use lan_send.Http.{HttpResponse, RequestLine, Body, ok, forbidden, bad_request}
use lan_send.Receive.{
  ReceiveFileContext, ReceiveController, is_working, Outcome, Attempt, feedback, reset_to_idle,
  check_session_completion, recover,
}
use lan_send.Receive.Attempt.{returned, raised}
use lan_send.Receive.Outcome.{responded, threw}
use lan_send.Receive.Chunk.{content_of}

-- What the operating system allows during one call.
pub record VerifyIo : Type 0 where
  pub can_read : Bool
  pub can_rename : Bool

-- fs::rename of the temporary file, and the count of completed files.
unfoldable pub move_file : ReceiveFileContext → String → ReceiveController → ReceiveController
move_file file path c = record c {
  disk = assign path (content_of file.temp_file_path c.disk) (erase file.temp_file_path c.disk);
  completed_file_count = c.completed_file_count + 1;
}

unfoldable pub save_file : ReceiveFileContext → String → ReceiveController → ReceiveController
save_file file path c =
    feedback (Feedback.file_receiving_completed c.session_id file.file_name) (move_file file path c)

-- The checksum agrees: choose the final path and move the file there.
unfoldable pub finish_file :
    VerifyIo → RequestLine → ReceiveFileContext → ReceiveController → Attempt
finish_file io req file c = elim (final_path c.disk c.save_dir file.file_name) [
  | none ↦ raised c (What.literal "stoi")
  | some path ↦
      if io.can_rename
      then returned (check_session_completion (save_file file path c)) (ok req (Body.text "ok"))
      else raised c (What.literal "rename")
]

module _ (d : Digest) where
  unfoldable pub check_file :
      VerifyIo → RequestLine → VerifyIntegrityDto → ReceiveFileContext → ReceiveController → Attempt
  check_file io req dto file c =
      if not (length file.received_chunks == file.total_chunks)
      then raised c (
          What.not_completely_received file.file_name (length file.received_chunks)
            file.total_chunks)
      else if not (exists file.temp_file_path c.disk && io.can_read)
      then raised c (What.literal "Failed to open file for checksum calculation")
      else elim (checksum_of_stream d (content_of file.temp_file_path c.disk)) [
        | none ↦ raised c What.no_text
        | some actual ↦
            if not (str_eq actual file.file_checksum)
            then raised c (What.file_checksum_mismatch file.file_name dto.file_id dto.session_id)
            else finish_file io req file c
      ]

  unfoldable pub process_verify :
      VerifyIo → RequestLine → VerifyIntegrityDto → ReceiveController → Attempt
  process_verify io req dto c =
      if not (str_eq dto.session_id c.session_id)
      then raised c (What.session_id_mismatch c.session_id dto.session_id)
      else elim (lookup dto.file_id c.received_files) [
        | none ↦ raised c (What.invalid_file_id dto.file_id dto.session_id)
        | some file ↦
            if str_eq file.file_token dto.file_token
            then check_file io req dto file c
            else raised c (What.invalid_file_token dto.file_id dto.session_id)
      ]

  module _ (json : Codec) where
    unfoldable pub on_verify_integrity :
        VerifyIo → Bool → RequestLine → Bytes → ReceiveController → ReceiveController × Outcome
    on_verify_integrity io cancelled req body c =
        if not (is_working c.session_status)
        then (c, responded (forbidden req (Body.text "sender cancelled")))
        else if not c.has_cancel_condition
        then (c, threw (What.literal "bad_function_call"))
        else if cancelled
        then (reset_to_idle c, responded (forbidden req (Body.text "receiver cancelled")))
        else elim (read_with json.parse json.from_verify_integrity body) [
          | none ↦ (c, responded (bad_request req (Body.text "invalid data")))
          | some dto ↦ recover req (process_verify io req dto c)
        ]
