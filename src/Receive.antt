-- ===== src/Receive.antt =====
-- src/core/network/server/controller/receive_controller.{h,cc}: the receiving side of a transfer, a
-- class that serves one session at a time. The disk that it works on and the feedback that it hands
-- to its callback are part of the record. The handlers stand in the modules below.
pub mod Request
pub mod Chunk
pub mod Verify
pub mod Cancel
pub mod Session
pub mod Handlers
pub mod Opening
pub mod System
pub mod Frame
pub mod Temporary
use lan_send.Base.{
  ℕ, zero, suc, ◌+◌, String, Option, none, some, Bool, true, false, ◌&&◌, ◌||◌, ◌==◌, not, is_empty,
  is_nil, if◌then◌else◌, Assoc, lookup, erase, length, List, [], ◌∷◌, ◌++◌,
}
use lan_send.Message.{Bytes}
use lan_send.Naming.{Disk, exists}
use lan_send.Model.{What, Feedback}
use lan_send.Http.{HttpResponse, RequestLine, Body, internal_server_error}

pub data ReceiveSessionStatus : Type 0 where
  idle working : ReceiveSessionStatus

-- src/include/core/model/file_receive_context.h
pub record ReceiveFileContext : Type 0 where
  pub file_name : String
  pub temp_file_path : String
  pub file_token : String
  pub file_size : ℕ
  pub chunk_size : ℕ
  pub total_chunks : ℕ
  -- a set: no element twice
  pub received_chunks : List ℕ
  pub file_checksum : String

pub record ReceiveController : Type 0 where
  pub save_dir : String
  -- callback_, wait_condition_ and cancel_condition_ are functions of the user interface, or null
  pub has_callback : Bool
  pub has_wait_condition : Bool
  pub has_cancel_condition : Bool
  pub session_status : ReceiveSessionStatus
  pub session_id : String
  pub received_files : Assoc ReceiveFileContext
  pub completed_file_count : ℕ
  pub sender_ip : String
  pub sender_port : ℕ
  pub disk : Disk
  pub feedbacks : List Feedback

abbrev pub is_working : ReceiveSessionStatus → Bool
is_working idle = false
is_working working = true

-- What a handler hands to HttpServer::handleRequest: a response, or an exception.
pub data Outcome : Type 0 where
  responded : HttpResponse → Outcome
  threw : What → Outcome

unfoldable pub feedback : Feedback → ReceiveController → ReceiveController
feedback f c = if c.has_callback then record c { feedbacks = c.feedbacks ++ f ∷ [] } else c

unfoldable pub set_save_directory : String → ReceiveController → ReceiveController
set_save_directory dir c = record c { save_dir = dir }

-- The first registered file that has a temporary file loses it: `break` ends the loop there.
unfoldable pub remove_first_temp : Assoc ReceiveFileContext → Disk → Disk
remove_first_temp [] disk = disk
remove_first_temp ((file_id, file) ∷ files) disk =
    if exists file.temp_file_path disk
    then erase file.temp_file_path disk
    else remove_first_temp files disk

unfoldable pub do_cleanup : ReceiveController → ReceiveController
do_cleanup c =
    if is_empty c.session_id || is_nil c.received_files
    then c
    else record c { disk = remove_first_temp c.received_files c.disk }

unfoldable pub reset_to_idle : ReceiveController → ReceiveController
reset_to_idle c = record (do_cleanup c) {
  session_id = "";
  session_status = idle;
  received_files = [];
  completed_file_count = 0;
  sender_ip = "";
  sender_port = 0;
}

-- The feedback is built after the reset, from the fields that the reset has cleared.
unfoldable pub end_session : Bool → Bool → What → ReceiveController → ReceiveController
end_session success cancelled_by_sender error_message c =
    let c' = reset_to_idle c in
    feedback
      (Feedback.receive_session_ended c'.session_id success cancelled_by_sender error_message) c'

unfoldable pub notify_sender_lost : ReceiveController → ReceiveController
notify_sender_lost = end_session false false (What.literal "Sender is lost")

unfoldable pub check_session_completion : ReceiveController → ReceiveController
check_session_completion c =
    if is_empty c.session_id
    then c
    else if not (is_nil c.received_files) && c.completed_file_count == length c.received_files
    then end_session true false What.no_text c
    else c

-- The outer try block of a handler: it returned a response, or threw from the state it had reached.
pub data Attempt : Type 0 where
  returned : ReceiveController → HttpResponse → Attempt
  raised : ReceiveController → What → Attempt

-- The catch block of onSendChunk and onVerifyIntegrity.
unfoldable pub recover : RequestLine → Attempt → ReceiveController × Outcome
recover req (returned c res) = (c, responded res)
recover req (raised c e) =
    (end_session false false e c, responded (internal_server_error req (Body.what e)))
