-- ===== src/Receive/Request.antt =====
-- ReceiveController::onRequestSend and waitForUserConfirmation (receive_controller.cc, lines 85 to
-- 216 and 588 to 631). The coroutine is cut where it waits: `begin_request` runs to the wait,
-- `poll_confirmation` is one round of the wait, between which other requests are served, and
-- `finish_request` runs from the wait to the answer.
pub mod Declined
use Prim.Native.String
use lan_send.Base.{
  ℕ, zero, suc, ◌+◌, String, ◌<>◌, Option, none, some, Bool, true, false, ◌&&◌, ◌==◌, not, str_eq,
  leb, if◌then◌else◌, Assoc, assign, List, [], ◌∷◌, map, to_string,
}
use lan_send.Message.{Bytes}
use lan_send.Json.{Codec, read_with}
use lan_send.Path.{join}
use lan_send.Model.{What, Feedback, FileDto, RequestSendDto, RequestSendResponseDto}
use lan_send.Http.{HttpResponse, RequestLine, Body, ok, forbidden, bad_request}
use lan_send.Receive.{
  ReceiveSessionStatus, ReceiveFileContext, ReceiveController, is_working, Outcome, feedback,
  reset_to_idle,
}
use lan_send.Receive.Outcome.{responded}

-- What the operating system, the clock and boost::uuids supply; std::hash is the library's.
pub record Entropy : Type 0 where
  pub now : ℕ
  pub session_uuid : String
  pub random_part : ℕ → String
  pub hash : String → ℕ

-- A coroutine that waits for the user.
pub record Pending : Type 0 where
  pub req : RequestLine
  pub dto : RequestSendDto

-- One call of wait_condition_: it throws, has no answer yet, or names the accepted files; and the
-- seconds since the wait began.
pub data Poll : Type 0 where
  poll_throws : Poll
  no_answer : ℕ → Poll
  answer : List String → Poll

pub data Begun : Type 0 where
  refused : HttpResponse → Begun
  waits : Pending → Begun

-- The receiver is taken, the user is asked, and the sender's address is kept.
unfoldable pub open_request : RequestSendDto → ReceiveController → ReceiveController
open_request dto c =
    record (feedback
      (Feedback.request_receive_files dto.device_info (map (λ f. f.file_name) dto.files))
      (record c { session_status = ReceiveSessionStatus.working })) {
        sender_ip = dto.device_info.ip_address;
        sender_port = dto.device_info.port;
      }

module _ (json : Codec) where
  unfoldable pub begin_request : RequestLine → Bytes → ReceiveController → ReceiveController × Begun
  begin_request req body c = elim (read_with json.parse json.from_request_send body) [
    | none ↦ (c, Begun.refused (bad_request req (Body.text "invalid data")))
    | some dto ↦
        if is_working c.session_status
        then (c, Begun.refused (forbidden req (Body.text "receiver busy")))
        else (open_request dto c, Begun.waits (record { req = req; dto = dto }))
  ]

-- std::ranges::find over the names.
names_file : String → List String → Bool
names_file name [] = false
names_file name (n ∷ ns) = if str_eq n name then true else names_file name ns

unfoldable pub choose_files : List String → List FileDto → List FileDto
unfolding names_file
choose_files names [] = []
choose_files names (f ∷ fs) =
    let rest = choose_files names fs in if names_file f.file_name names then f ∷ rest else rest

-- The time that the user has, in seconds.
abbrev pub timeout_seconds : ℕ
timeout_seconds = 30

-- One round of confirmation_task, under a wait condition: `none` goes on waiting, `some result` ends
-- the wait. The chosen files go to a local variable of the task, and `result` is not written.
unfoldable pub poll_confirmation :
    ReceiveController → Poll → List FileDto → Option (Option (List FileDto))
unfolding choose_files
poll_confirmation c poll files =
    let result : Option (List FileDto) = none in
    if not (is_working c.session_status) then some result else elim poll [
      | Poll.poll_throws ↦ some result
      | Poll.answer names ↦ let accepted_files = choose_files names files in some result
      | Poll.no_answer seconds ↦ if leb timeout_seconds seconds then some result else none
    ]

-- waitForUserConfirmation over the rounds that it sees, each with the state it meets; `none` while
-- it still waits. Without a wait condition all files are accepted at once.
unfoldable pub wait_for_user_confirmation :
    Bool → List (ReceiveController × Poll) → List FileDto → Option (Option (List FileDto))
unfolding poll_confirmation
wait_for_user_confirmation false rounds files = some (some files)
wait_for_user_confirmation true [] files = none
wait_for_user_confirmation true ((c, poll) ∷ rounds) files =
    let later = wait_for_user_confirmation true rounds files in
    elim (poll_confirmation c poll files) [ none ↦ later | some result ↦ some result ]

-- text.substr(0, n)
prefix : ℕ → String → String
prefix zero s = ""
prefix (suc n) String.[] = ""
prefix (suc n) (String.◌∷◌ c s) = String.◌∷◌ c (prefix n s)

unfoldable pub file_token : Entropy → ℕ → FileDto → String
unfolding prefix
file_token e i f =
    prefix 8 (to_string (e.hash (f.file_name <> f.file_id))) <> prefix 12 (e.random_part i)

unfoldable pub file_context : Entropy → ℕ → String → FileDto → ReceiveFileContext
file_context e i save_dir f = record {
  file_name = f.file_name;
  temp_file_path = join save_dir (f.file_id <> ".part");
  file_token = file_token e i f;
  file_size = f.file_size;
  chunk_size = f.chunk_size;
  total_chunks = f.total_chunks;
  received_chunks = [];
  file_checksum = f.file_checksum;
}

-- The loop over the accepted files: their tokens and their contexts.
unfoldable pub register_files :
    Entropy → ℕ → List FileDto → Assoc String → ReceiveController → ReceiveController × Assoc String
register_files e i [] tokens c = (c, tokens)
register_files e i (f ∷ fs) tokens c =
    register_files e (i + 1) fs (assign f.file_id (file_token e i f) tokens) (record c {
      received_files = assign f.file_id (file_context e i c.save_dir f) c.received_files;
    })

unfoldable pub finish_request :
    Entropy → Pending → Option (List FileDto) → ReceiveController → ReceiveController × Outcome
finish_request e p accepted_files c =
    if not (is_working c.session_status)
    then (c, responded (forbidden p.req (Body.text "sender cancelled")))
    else elim accepted_files [
      | none ↦ (reset_to_idle c, responded (forbidden p.req (Body.text "declined")))
      | some files ↦
          let session_id = to_string e.now <> e.session_uuid in
          let (c', tokens) = register_files e 0 files [] (record c { session_id = session_id }) in
          (
            c',
            responded
                (ok p.req (Body.json (record { session_id = session_id; file_tokens = tokens }))),
          )
    ]

-- The wait of a request, as it comes out: what the system supplies, and, from the state that is waited
-- in, the state that other requests have left when it is over and the result of
-- waitForUserConfirmation.
pub record Waiting : Type 0 where
  pub entropy : Entropy
  pub waited : Pending → ReceiveController → ReceiveController × Option (List FileDto)

-- The whole handler.
unfoldable pub on_request_send :
    Codec → Waiting → RequestLine → Bytes → ReceiveController → ReceiveController × Outcome
unfolding begin_request finish_request
on_request_send json waiting req body c =
    let (c', begun) = begin_request json req body c in
    elim begun [
      | Begun.refused res ↦ (c', responded res)
      | Begun.waits p ↦
          let (c'', accepted_files) = waiting.waited p c' in
          finish_request waiting.entropy p accepted_files c''
    ]
