-- ===== src/Ipc/Service/Commands.antt =====
-- IpcService and IpcBackendService one after the other: from the pipe to the components.
use lan_send.Base.{
  ℕ, ◌<◌, ◌≡◌, refl, ap, ◌∙◌, sym, some, true, length, List, [], ◌∷◌, ◌++◌, append-nil,
  append_assoc, false≢true,
}
use lan_send.Message.{Bytes}
use lan_send.Ipc.Operation.{OperationType, Operation, OperationCodec}
use lan_send.Ipc.EventStream.{IpcEventStream, post_operation}
use lan_send.Ipc.EventStream.Order.{Call, after, step, queued}
use lan_send.Ipc.Backend.{IpcBackendService, dispatch_operation, rounds}
use lan_send.Ipc.Backend.Rounds.{NoExit, with_queue, dispatch_all, rounds-exit}
use lan_send.Ipc.Service.{Pipes, ServiceCodec, Service, read_message_loop}
use lan_send.Ipc.Service.Reliable.{IsReliable, frames, calls_of, all_calls}
use lan_send.Ipc.Service.Reading.{AllFit, read_message_loop-Delivers}

module _ (json : OperationCodec) (codec : ServiceCodec json) where
  -- Each message names the operation beside it, which is one for the queue of the backend.
  abbrev pub Names : List Bytes → List (Operation json.Doc) → Type 0
  Names [] [] = Unit {0}
  Names (m ∷ ms) (op ∷ ops) =
      (calls_of json codec m ≡ Call.posts op ∷ []) × (queued op.type ≡ true) × Names ms ops
  Names _ _ = ⊥

  post-queued :
      (t : OperationType) (p : json.Doc) (s : IpcEventStream json.Doc)
      → queued t ≡ true
      → post_operation json (record { type = t; payload = p }) s
        ≡ with_queue (s.active_operations ++ record { type = t; payload = p } ∷ []) s
  unfolding post_operation
  post-queued OperationType.send_files p s h = refl
  post-queued OperationType.cancel_wait_for_confirmation p s h = refl
  post-queued OperationType.cancel_send p s h = refl
  post-queued OperationType.respond_to_receive_request p s h = absurd (false≢true h)
  post-queued OperationType.cancel_receive p s h = absurd (false≢true h)
  post-queued OperationType.modify_settings p s h = refl
  post-queued OperationType.connect_to_device p s h = refl
  post-queued OperationType.exit_app p s h = refl

  after-all_calls :
      (ms : List Bytes) (ops : List (Operation json.Doc)) (s : IpcEventStream json.Doc)
      → Names ms ops
      → after json (all_calls json codec ms) s ≡ with_queue (s.active_operations ++ ops) s
  unfolding after step all_calls
  after-all_calls [] [] s h = ap (λ q. with_queue q s) (sym (append-nil s.active_operations))
  after-all_calls (m ∷ ms) (op ∷ ops) s h =
      let s' = with_queue (s.active_operations ++ op ∷ []) s in
      ap (λ cs. after json (cs ++ all_calls json codec ms) s) h.0
      ∙ ap (after json (all_calls json codec ms)) (post-queued op.type op.payload s h.1)
      ∙ after-all_calls ms ops s' h.2
      ∙ ap (λ q. with_queue q s) (append_assoc s.active_operations (op ∷ []) ops)
  after-all_calls [] (op ∷ ops) s h = absurd h
  after-all_calls (m ∷ ms) [] s h = absurd h

module _ (json : OperationCodec) (codec : ServiceCodec json) (p : Pipes) (law : IsReliable p) where
  -- The interface wrote messages of at most 10 MiB that name operations for the backend, and closed the
  -- pipe, while the queue was empty and the backend was running. The read loop ends, given one round
  -- more than there are messages, and then the loop of the backend, given enough rounds, dispatches
  -- the operations in the order in which they were written, up to the first exit; what was written
  -- behind it stays in the queue.
  pub rounds-read_message_loop :
      (messages : List Bytes) (times : List ℕ) (s : Service json codec p)
      (ops later : List (Operation json.Doc)) (last : Operation json.Doc) (k : ℕ)
      (b : IpcBackendService)
      → law.input s.pipes ≡ frames messages
      → AllFit messages
      → length messages < length times
      → Names json codec messages (ops ++ last ∷ later)
      → s.event_stream.active_operations ≡ []
      → b.is_running ≡ true
      → NoExit ops
      → last.type ≡ OperationType.exit_app
      → length ops < k
      → (t : Service json codec p) × (read_message_loop json codec p times s ≡ some t)
        × (rounds json k (t.event_stream, b) ≡ (
          with_queue later s.event_stream,
          dispatch_operation json last (dispatch_all json ops b),
        ))
  rounds-read_message_loop messages times s ops later last k b written fits enough names idle on
        others is_last few =
      let read = read_message_loop-Delivers json codec p law messages times s fits written enough in
      let queue : read.0.event_stream ≡ with_queue (ops ++ last ∷ later) s.event_stream =
        read.2
        ∙ after-all_calls json codec messages (ops ++ last ∷ later) s.event_stream names
        ∙ ap (λ q. with_queue (q ++ (ops ++ last ∷ later)) s.event_stream) idle in
      (
        read.0,
        read.1,
        ap (λ e. rounds json k (e, b)) queue
            ∙ rounds-exit json ops later last k s.event_stream b on others is_last few,
      )
