-- ===== src/Ipc/EventStream/Order.antt =====
-- IpcEventStream: its queues over sequences of calls.
use lan_send.Base.{
  Option, none, some, Bool, true, false, ◌≡◌, refl, sym, ◌∙◌, ap, List, [], ◌∷◌, ◌++◌, append-nil,
  append_assoc, if◌then◌else◌, if_keeps, option_cases,
}
use lan_send.Model.{Feedback}
use lan_send.Ipc.Operation.{OperationType, Operation, OperationCodec}
use lan_send.Ipc.EventStream.{
  IpcEventStream, post_operation, post_feedback, poll_active_operation,
  poll_confirm_receive_operation, poll_cancel_receive_operation, poll_feedback, pop_front,
}

abbrev pub one {ℓ} : {A : Type ℓ} → Option A → List A
one none = []
one (some a) = a ∷ []

-- What goes to the backend's queue.
abbrev pub queued : OperationType → Bool
queued OperationType.respond_to_receive_request = false
queued OperationType.cancel_receive = false
queued _ = true

-- Two steps of a queue: what comes out before what stays, and what stood before what goes in.
chain {ℓ} :
    {A : Type ℓ} (out in_ later left before between inner : List A)
    → out ++ between ≡ before ++ in_
    → later ++ left ≡ between ++ inner
    → (out ++ later) ++ left ≡ before ++ (in_ ++ inner)
chain out in_ later left before between inner e f =
    append_assoc out later left
    ∙ ap (◌++◌ out) f
    ∙ sym (append_assoc out between inner)
    ∙ ap (λ l. l ++ inner) e
    ∙ append_assoc before in_ inner

popped {ℓ} : {A : Type ℓ} (xs : List A) → one (pop_front xs).0 ++ (pop_front xs).1 ≡ xs ++ []
unfolding pop_front
popped [] = refl
popped (x ∷ xs) = ap (◌∷◌ x) (sym (append-nil xs))

module _ (json : OperationCodec) where
  -- The calls of the methods.
  pub data Call : Type 0 where
    posts : Operation json.Doc → Call
    tells : Feedback → Call
    polls_operation polls_confirm polls_cancel polls_feedback : Call

  unfoldable pub step : Call → IpcEventStream json.Doc → IpcEventStream json.Doc
  step (posts op) s = post_operation json op s
  step (tells f) s = post_feedback f s
  step polls_operation s = (poll_active_operation s).1
  step polls_confirm s = (poll_confirm_receive_operation s).1
  step polls_cancel s = (poll_cancel_receive_operation s).1
  step polls_feedback s = (poll_feedback s).1

  unfoldable pub after : List Call → IpcEventStream json.Doc → IpcEventStream json.Doc
  after [] s = s
  after (c ∷ cs) s = after cs (step c s)

  -- The operations that one call hands out, and those that it takes in for the backend.
  abbrev pub handed : Call → IpcEventStream json.Doc → List (Operation json.Doc)
  handed polls_operation s = one (poll_active_operation s).0
  handed _ s = []

  abbrev pub taken : Call → List (Operation json.Doc)
  taken (posts op) = if queued op.type then op ∷ [] else []
  taken _ = []

  -- The same of feedbacks.
  abbrev pub shown : Call → IpcEventStream json.Doc → List Feedback
  shown polls_feedback s = one (poll_feedback s).0
  shown _ s = []

  abbrev pub told : Call → List Feedback
  told (tells f) = f ∷ []
  told _ = []

  unfoldable pub all_handed : List Call → IpcEventStream json.Doc → List (Operation json.Doc)
  all_handed [] s = []
  all_handed (c ∷ cs) s = handed c s ++ all_handed cs (step c s)

  unfoldable pub all_taken : List Call → List (Operation json.Doc)
  all_taken [] = []
  all_taken (c ∷ cs) = taken c ++ all_taken cs

  unfoldable pub all_shown : List Call → IpcEventStream json.Doc → List Feedback
  all_shown [] s = []
  all_shown (c ∷ cs) s = shown c s ++ all_shown cs (step c s)

  unfoldable pub all_told : List Call → List Feedback
  all_told [] = []
  all_told (c ∷ cs) = told c ++ all_told cs

  posted-operations :
      (t : OperationType) (p : json.Doc) (s : IpcEventStream json.Doc)
      → (post_operation json (record { type = t; payload = p }) s).active_operations
        ≡ s.active_operations ++ (if queued t then record { type = t; payload = p } ∷ [] else [])
  unfolding post_operation
  posted-operations OperationType.send_files p s = refl
  posted-operations OperationType.cancel_wait_for_confirmation p s = refl
  posted-operations OperationType.cancel_send p s = refl
  posted-operations OperationType.respond_to_receive_request p s =
      option_cases
        (λ (q : IpcEventStream json.Doc). q.active_operations ≡ s.active_operations ++ [])
        (json.from_confirm_receive p) _ _ (sym (append-nil _)) (λ c _. sym (append-nil _))
  posted-operations OperationType.cancel_receive p s = sym (append-nil _)
  posted-operations OperationType.modify_settings p s = refl
  posted-operations OperationType.connect_to_device p s = refl
  posted-operations OperationType.exit_app p s = refl

  posted-feedbacks :
      (t : OperationType) (p : json.Doc) (s : IpcEventStream json.Doc)
      → (post_operation json (record { type = t; payload = p }) s).feedbacks ≡ s.feedbacks ++ []
  unfolding post_operation
  posted-feedbacks OperationType.send_files p s = sym (append-nil _)
  posted-feedbacks OperationType.cancel_wait_for_confirmation p s = sym (append-nil _)
  posted-feedbacks OperationType.cancel_send p s = sym (append-nil _)
  posted-feedbacks OperationType.respond_to_receive_request p s =
      option_cases (λ (q : IpcEventStream json.Doc). q.feedbacks ≡ s.feedbacks ++ [])
        (json.from_confirm_receive p) _ _ (sym (append-nil _)) (λ c _. sym (append-nil _))
  posted-feedbacks OperationType.cancel_receive p s = sym (append-nil _)
  posted-feedbacks OperationType.modify_settings p s = sym (append-nil _)
  posted-feedbacks OperationType.connect_to_device p s = sym (append-nil _)
  posted-feedbacks OperationType.exit_app p s = sym (append-nil _)

  step-operations :
      (c : Call) (s : IpcEventStream json.Doc)
      → handed c s ++ (step c s).active_operations ≡ s.active_operations ++ taken c
  unfolding step post_operation post_feedback poll_active_operation poll_cancel_receive_operation
      poll_feedback poll_confirm_receive_operation
  step-operations (posts op) s = posted-operations op.type op.payload s
  step-operations (tells f) s = sym (append-nil _)
  step-operations polls_operation s = popped s.active_operations
  step-operations polls_confirm s = sym (append-nil _)
  step-operations polls_cancel s =
      if_keeps
        (λ (p : Bool × IpcEventStream json.Doc). p.1.active_operations ≡ s.active_operations ++ [])
        s.cancel_receive_operation _ _ (sym (append-nil _)) (sym (append-nil _))
  step-operations polls_feedback s = sym (append-nil _)

  step-feedbacks :
      (c : Call) (s : IpcEventStream json.Doc)
      → shown c s ++ (step c s).feedbacks ≡ s.feedbacks ++ told c
  unfolding step post_operation post_feedback poll_active_operation poll_cancel_receive_operation
      poll_feedback poll_confirm_receive_operation
  step-feedbacks (posts op) s = posted-feedbacks op.type op.payload s
  step-feedbacks (tells f) s = refl
  step-feedbacks polls_operation s = sym (append-nil _)
  step-feedbacks polls_confirm s = sym (append-nil _)
  step-feedbacks polls_cancel s =
      if_keeps (λ (p : Bool × IpcEventStream json.Doc). p.1.feedbacks ≡ s.feedbacks ++ [])
        s.cancel_receive_operation _ _ (sym (append-nil _)) (sym (append-nil _))
  step-feedbacks polls_feedback s = popped s.feedbacks

  -- Whatever calls come, in whatever order: the operations that polls hand out, followed by those that
  -- still wait, are the ones that waited before, followed by the posted ones that are no answer to a
  -- request and no cancellation of receiving; the same holds of feedbacks, without exception.
  pub after-queues :
      (cs : List Call) (s : IpcEventStream json.Doc)
      → (all_handed cs s ++ (after cs s).active_operations ≡ s.active_operations ++ all_taken cs)
        × (all_shown cs s ++ (after cs s).feedbacks ≡ s.feedbacks ++ all_told cs)
  unfolding after all_handed all_taken all_shown all_told
  after-queues [] s = (sym (append-nil _), sym (append-nil _))
  after-queues (c ∷ cs) s =
      let later = after-queues cs (step c s) in
      let t = step c s in
      let u = after cs t in
      (
        chain (handed c s) (taken c) (all_handed cs t) u.active_operations s.active_operations
            t.active_operations (all_taken cs) (step-operations c s) later.0,
        chain (shown c s) (told c) (all_shown cs t) u.feedbacks s.feedbacks t.feedbacks
            (all_told cs) (step-feedbacks c s) later.1,
      )
