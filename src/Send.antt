-- ===== src/Send.antt =====
-- src/core/network/client/send_session.{h,cc}: the sending side of a transfer. The network is a
-- parameter, and so is what other coroutines do while a session waits: an exchange also says whether
-- a cancellation by the user took effect before its reply came.
pub mod Prepare
pub mod Transfer
pub mod Start
pub mod Cut
pub mod Wire
pub mod Steps
pub mod Blocks
pub mod Delivered
pub mod File
use lan_send.Base.{
  ℕ, ◌+◌, String, Option, none, some, Bool, true, false, ◌==◌, ◌&&◌, ◌||◌, if◌then◌else◌, Assoc,
  List, [], ◌∷◌, ◌++◌,
}
use lan_send.Message.{Bytes}
use lan_send.Model.{SessionStatus, Feedback, What, RequestSendResponseDto}
use lan_send.Http.{Body}

-- src/include/core/constant/transfer.h
unfoldable pub default_chunk_size : ℕ
default_chunk_size = 1048576

-- src/include/core/model/transfer_file_info.h
pub record TransferFileInfo : Type 0 where
  pub file_path : String
  pub file_size : ℕ
  pub total_chunks : ℕ
  pub file_token : String

pub record SendSession : Type 0 where
  -- in the order in which the map is iterated
  pub transfer_files : Assoc TransferFileInfo
  pub session_status : SessionStatus
  pub session_id : String
  pub receiver_device_id : String
  pub has_callback : Bool
  pub feedbacks : List Feedback

-- A response, as far as the session reads it.
pub record Reply : Type 0 where
  pub status : ℕ
  pub body : Body

-- SendRequest: `none` where it throws; and whether cancelSend set the status during the wait.
pub record Exchange : Type 0 where
  pub reply : Option Reply
  pub cancelled : Bool

-- Connect: the local endpoint, or no connection.
pub data Connection : Type 0 where
  refused : Connection
  connected : String → ℕ → Connection

-- HttpsClient and the peer behind it, and the timer between two requests: whether cancelSend set the
-- status meanwhile.
pub record Network : Type 1 where
  pub State : Type 0
  pub connect : String → ℕ → State → Connection × State
  pub is_connected : State → Bool
  pub exchange : String → Bytes → State → Exchange × State
  pub disconnect : State → State
  pub sleep : State → Bool × State

unfoldable pub feedback : Feedback → SendSession → SendSession
feedback f s = if s.has_callback then record s { feedbacks = s.feedbacks ++ f ∷ [] } else s

abbrev pub by_sender : SessionStatus → Bool
by_sender SessionStatus.cancelled_by_sender = true
by_sender _ = false

-- IsCancelled
abbrev pub is_cancelled : SessionStatus → Bool
is_cancelled SessionStatus.cancelled_by_sender = true
is_cancelled SessionStatus.cancelled_by_receiver = true
is_cancelled _ = false

-- What a cancellation by the user that came during a wait leaves.
unfoldable pub cancelled_meanwhile : Bool → SendSession → SendSession
cancelled_meanwhile b s =
    if b then record s { session_status = SessionStatus.cancelled_by_sender } else s
