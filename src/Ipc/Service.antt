-- ===== src/Ipc/Service.antt =====
-- src/ipc/ipc_service.cc: the pipes between the interface and the backend. A message is a length of
-- four bytes in network order and the text of a JSON document. The pipes and nlohmann::json are
-- parameters. The waits between rounds are left out, and a round is given the time it stamps.
pub mod Reliable
pub mod Reading
pub mod Ending
pub mod Telling
pub mod Commands
use lan_send.Base.{
  ℕ, ◌*◌, String, Option, none, some, Bool, true, false, ltb, ◌==◌, str_eq, if◌then◌else◌, length,
  List, [], ◌∷◌,
}
use lan_send.Model.{Feedback}
use lan_send.Message.{Bytes, htonl, ntohl}
use lan_send.Ipc.Operation.{OperationType, OperationCodec}
use lan_send.Ipc.EventStream.{IpcEventStream, post_operation, poll_feedback}

-- boost::asio::async_read: all the bytes asked for, or an exception; `closed` stands for the codes
-- eof, connection_reset, connection_aborted and broken_pipe.
pub data ReadResult : Type 0 where
  received : Bytes → ReadResult
  closed failed : ReadResult

-- input_ and output_. `write` tells whether async_write returned, `allocates` whether a vector can be
-- resized to a length.
pub record Pipes : Type 1 where
  pub State : Type 0
  pub read : ℕ → State → ReadResult × State
  pub write : Bytes → State → Bool × State
  pub allocates : ℕ → Bool

-- What send_message is called with.
pub data Outgoing : Type 0 where
  backend_started : Outgoing
  told : Feedback → Outgoing
  -- the text that json::parse refused
  processing_failed : Bytes → Outgoing

-- nlohmann::json: `parse` and `dump` are `none` where they throw, `operation_name` where the document
-- holds no text under "operation"; `data_of` is the document under "data", or null. `dump` is given
-- the time.
pub record ServiceCodec (json : OperationCodec) : Type 0 where
  pub parse : Bytes → Option json.Doc
  pub operation_name : json.Doc → Option String
  pub data_of : json.Doc → json.Doc
  pub dump : Outgoing → ℕ → Option Bytes

-- NLOHMANN_JSON_SERIALIZE_ENUM of OperationType: a name it does not know is its first entry.
unfoldable pub operation_type : String → OperationType
operation_type name =
    if str_eq name "SendFiles"
    then OperationType.send_files
    else if str_eq name "CancelWaitForConfirmation"
    then OperationType.cancel_wait_for_confirmation
    else if str_eq name "CancelSend"
    then OperationType.cancel_send
    else if str_eq name "ConfirmReceive"
    then OperationType.respond_to_receive_request
    else if str_eq name "CancelReceive"
    then OperationType.cancel_receive
    else if str_eq name "ModifySettings"
    then OperationType.modify_settings
    else if str_eq name "ConnectToDevice"
    then OperationType.connect_to_device
    else if str_eq name "ExitApp"
    then OperationType.exit_app
    else OperationType.send_files

pub record IpcService (Doc P : Type 0) : Type 0 where
  pub pipes : P
  pub event_stream : IpcEventStream Doc
  pub running : Bool

-- 10 * 1024 * 1024
abbrev pub max_length : ℕ
max_length = 10485760

module _ (json : OperationCodec) (codec : ServiceCodec json) (p : Pipes) where
  abbrev pub Service : Type 0
  Service = IpcService json.Doc p.State

  -- The second write is not reached when the first one throws.
  unfoldable pub write_message : Bytes → p.State → p.State
  write_message text st =
      let header = p.write (htonl (length text)) st in
      if header.0 then (p.write text header.1).1 else header.1

  -- Every exception is caught, so that the caller never sees one.
  unfoldable pub send_message : Outgoing → ℕ → Service → Service
  unfolding write_message
  send_message out now s = elim (codec.dump out now) [
    | none ↦ s
    | some text ↦ record s { pipes = write_message text s.pipes }
  ]

  -- `start`, up to the two loops that it spawns.
  unfoldable start : ℕ → Service → Service
  unfolding send_message
  start now s =
      if s.running
      then s
      else send_message Outgoing.backend_started now (record s { running = true })

  unfoldable pub handle_message : Bytes → ℕ → Service → Service
  unfolding operation_type send_message
  handle_message text now s = elim (codec.parse text) [
    | none ↦ send_message (Outgoing.processing_failed text) now s
    | some doc ↦ elim (codec.operation_name doc) [
      | none ↦ s
      | some name ↦ record s {
        event_stream =
            post_operation json (record { type = operation_type name; payload = codec.data_of doc })
              s.event_stream;
      }
    ]
  ]

  unfoldable pub read_content : ℕ → ℕ → Service → Service
  unfolding handle_message
  read_content n now s =
      let got = p.read n s.pipes in
      let s' = record s { pipes = got.1 } in
      elim got.0 [
        | ReadResult.received b ↦ if length b == n then handle_message b now s' else s'
        | ReadResult.closed ↦ record s' { running = false }
        | ReadResult.failed ↦ s'
      ]

  -- One round of the loop. A message that is too long is not read.
  unfoldable pub read_round : ℕ → Service → Service
  unfolding read_content
  read_round now s =
      let got = p.read 4 s.pipes in
      let s' = record s { pipes = got.1 } in
      elim got.0 [
        | ReadResult.received b ↦
            if length b == 4
            then if ltb max_length (ntohl b)
              then s'
              else if p.allocates (ntohl b)
              then read_content (ntohl b) now s'
              else s'
            else s'
        | ReadResult.closed ↦ record s' { running = false }
        | ReadResult.failed ↦ s'
      ]

  -- `while (running_)`, for as many rounds as there are times; `none` means that there were too few.
  unfoldable pub read_loop : List ℕ → Service → Option Service
  unfolding read_round
  read_loop [] s = if s.running then none else some s
  read_loop (now ∷ times) s =
      let rest = read_loop times (read_round now s) in if s.running then rest else some s

  unfoldable pub read_message_loop : List ℕ → Service → Option Service
  unfolding read_loop
  read_message_loop times s = read_loop times (record s { running = true })

  -- One round of the loop that tells the interface what happens.
  unfoldable pub feedback_round : ℕ → Service → Service
  unfolding send_message poll_feedback
  feedback_round now s =
      let polled = poll_feedback s.event_stream in
      elim polled.0 [
        | none ↦ s
        | some f ↦ send_message (Outgoing.told f) now (record s { event_stream = polled.1 })
      ]

  -- Rounds of `while (running_)`, one for each time.
  unfoldable pub read_event_stream_loop : List ℕ → Service → Service
  unfolding feedback_round
  read_event_stream_loop [] s = s
  read_event_stream_loop (now ∷ times) s =
      if s.running then read_event_stream_loop times (feedback_round now s) else s
