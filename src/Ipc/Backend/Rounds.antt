-- ===== src/Ipc/Backend/Rounds.antt =====
-- IpcBackendService::start: the order in which the loop handles the operations.
use lan_send.Base.{
  ℕ, zero, suc, ◌<◌, arith, true, false, ◌≡◌, ◌≢◌, refl, ap, ◌∙◌, if_true, if_false, if_keeps, List,
  [], ◌∷◌, ◌++◌, length,
}
use lan_send.Ipc.Operation.{OperationType, Operation, OperationCodec}
use lan_send.Ipc.EventStream.{IpcEventStream, pop_front, poll_active_operation}
use lan_send.Ipc.Backend.{
  IpcBackendService, client_call, exit_app, stop, dispatch_operation, round, rounds,
}
use lan_send.Ipc.Backend.Dispatch.{dispatch_cases}

abbrev pub NoExit : {Doc : Type 0} → List (Operation Doc) → Type 0
NoExit [] = Unit {0}
NoExit (op ∷ ops) = (op.type ≢ OperationType.exit_app) × NoExit ops

-- The queue, with the other places of the stream as they are.
abbrev pub with_queue :
    {Doc : Type 0} → List (Operation Doc) → IpcEventStream Doc → IpcEventStream Doc
with_queue ops s = record s { active_operations = ops }

module _ (json : OperationCodec) where
  -- The operations one after another, with no queue.
  unfoldable pub dispatch_all : List (Operation json.Doc) → IpcBackendService → IpcBackendService
  dispatch_all [] b = b
  dispatch_all (op ∷ ops) b = dispatch_all ops (dispatch_operation json op b)

  dispatch-running :
      (op : Operation json.Doc) (b : IpcBackendService)
      → op.type ≢ OperationType.exit_app
      → b.is_running ≡ true
      → (dispatch_operation json op b).is_running ≡ true
  unfolding client_call
  dispatch-running op b other on =
      dispatch_cases json (λ b'. b'.is_running ≡ true) b
        (record {
          same = on;
          stopped_waiting = λ id d _. on;
          stopped_sending = λ id. on;
          connected = λ id pin d _. on;
          set = λ s. on;
        })
        op (λ e. absurd (other e))

  rounds-stopped :
      (n : ℕ) (events : IpcEventStream json.Doc) (b : IpcBackendService)
      → b.is_running ≡ false
      → rounds json n (events, b) ≡ (events, b)
  unfolding rounds round
  rounds-stopped zero events b off = refl
  rounds-stopped (suc n) events b off =
      ap (rounds json n) (if_false b.is_running _ _ off) ∙ rounds-stopped n events b off

  round-on :
      (op : Operation json.Doc) (ops : List (Operation json.Doc)) (events : IpcEventStream json.Doc)
      (b : IpcBackendService)
      → b.is_running ≡ true
      → round json (with_queue (op ∷ ops) events, b)
        ≡ (with_queue ops events, dispatch_operation json op b)
  unfolding round poll_active_operation pop_front
  round-on op ops events b on = if_true b.is_running _ _ on

  exit-stopped :
      (t : OperationType) (p : json.Doc) (b : IpcBackendService)
      → t ≡ OperationType.exit_app
      → (dispatch_operation json (record { type = t; payload = p }) b).is_running ≡ false
  unfolding dispatch_operation exit_app stop
  exit-stopped t p b e = rw e (
      if_keeps (λ (b' : IpcBackendService). b'.is_running ≡ false) b.has_exit_callback _ _ refl
        refl)

  -- While the service runs, the operations up to the first one that ends the program are dispatched in
  -- the order of the queue, one in a round, if there are enough rounds; after that one nothing is dispatched any more, however
  -- many rounds follow, and what stood behind it stays in the queue.
  pub rounds-exit :
      (ops later : List (Operation json.Doc)) (last : Operation json.Doc) (k : ℕ)
      (events : IpcEventStream json.Doc) (b : IpcBackendService)
      → b.is_running ≡ true
      → NoExit ops
      → last.type ≡ OperationType.exit_app
      → length ops < k
      → rounds json k (with_queue (ops ++ last ∷ later) events, b)
        ≡ (with_queue later events, dispatch_operation json last (dispatch_all ops b))
  unfolding rounds dispatch_all
  rounds-exit ops later last zero events b on others is_last few = absurd (omega arith)
  rounds-exit [] later last (suc n) events b on others is_last few =
      ap (rounds json n) (round-on last later events b on)
      ∙ rounds-stopped n (with_queue later events) (dispatch_operation json last b)
          (exit-stopped last.type last.payload b is_last)
  rounds-exit (op ∷ ops) later last (suc n) events b on others is_last few =
      ap (rounds json n) (round-on op (ops ++ last ∷ later) events b on)
      ∙ rounds-exit ops later last n events (dispatch_operation json op b)
          (dispatch-running op b others.0 on) others.1 is_last (omega arith)
