-- ===== src/Ipc/EventStream.antt =====
-- src/ipc/ipc_event_stream.cc: the queues between the interface and the backend. Calls are taken not to
-- overlap; the mutex sees to that, but for PostFeedback and PollConfirmReceiveOperation, which do not
-- hold it.
pub mod Order
use lan_send.Base.{Option, none, some, Bool, true, false, if◌then◌else◌, List, [], ◌∷◌, ◌++◌}
use lan_send.Model.{Feedback}
use lan_send.Ipc.Operation.{OperationType, Operation, ConfirmReceive, OperationCodec}

pub record IpcEventStream (Doc : Type 0) : Type 0 where
  pub active_operations : List (Operation Doc)
  pub confirm_receive_operation : Option ConfirmReceive
  pub cancel_receive_operation : Bool
  pub feedbacks : List Feedback

-- front and pop_front of a std::deque, where it is not empty
unfoldable pub pop_front {ℓ} : {A : Type ℓ} → List A → Option A × List A
pop_front [] = (none, [])
pop_front (x ∷ xs) = (some x, xs)

module _ (json : OperationCodec) where
  -- Both overloads. An answer to a request and a cancellation of receiving have places of their own.
  unfoldable pub post_operation :
      Operation json.Doc → IpcEventStream json.Doc → IpcEventStream json.Doc
  post_operation op s = elim op.type [
    | OperationType.respond_to_receive_request ↦ elim (json.from_confirm_receive op.payload) [
      | none ↦ s
      | some confirm ↦ record s { confirm_receive_operation = some confirm }
    ]
    | OperationType.cancel_receive ↦ record s { cancel_receive_operation = true }
    | _ ↦ record s { active_operations = s.active_operations ++ op ∷ [] }
  ]

unfoldable pub post_feedback : {Doc : Type 0} → Feedback → IpcEventStream Doc → IpcEventStream Doc
post_feedback f s = record s { feedbacks = s.feedbacks ++ f ∷ [] }

unfoldable pub poll_active_operation :
    {Doc : Type 0} → IpcEventStream Doc → Option (Operation Doc) × IpcEventStream Doc
unfolding pop_front
poll_active_operation s =
    let popped = pop_front s.active_operations in
    (popped.0, record s { active_operations = popped.1 })

unfoldable pub poll_confirm_receive_operation :
    {Doc : Type 0} → IpcEventStream Doc → Option ConfirmReceive × IpcEventStream Doc
poll_confirm_receive_operation s =
    (s.confirm_receive_operation, record s { confirm_receive_operation = none })

unfoldable pub poll_cancel_receive_operation :
    {Doc : Type 0} → IpcEventStream Doc → Bool × IpcEventStream Doc
poll_cancel_receive_operation s =
    if s.cancel_receive_operation
    then (true, record s { cancel_receive_operation = false })
    else (false, s)

unfoldable pub poll_feedback :
    {Doc : Type 0} → IpcEventStream Doc → Option Feedback × IpcEventStream Doc
unfolding pop_front
poll_feedback s =
    let popped = pop_front s.feedbacks in (popped.0, record s { feedbacks = popped.1 })
