-- ===== src/Ipc/Service/Reliable.antt =====
-- IpcService: pipes that neither fail nor lose bytes, and the calls of the service on them.
use lan_send.Base.{
  ℕ, ◌≤◌, ◌<◌, ◌≡◌, refl, ◌∙◌, ap, none, some, true, length, take, drop, List, [], ◌∷◌, ◌++◌,
  append_assoc, option_cases, Option-cases, inl, inr,
}
use lan_send.Message.{Bytes, htonl}
use lan_send.Ipc.Operation.{OperationCodec}
use lan_send.Ipc.EventStream.Order.{Call, after, step}
use lan_send.Ipc.Service.{
  ReadResult, Pipes, Outgoing, ServiceCodec, Service, operation_type, write_message, send_message,
  handle_message,
}

-- The other end wrote `input` and then closed its pipe; `output` is what this end wrote. These are the
-- documented results of async_read and async_write where no error occurs before the end.
pub record IsReliable (p : Pipes) : Type 0 where
  pub input : p.State → Bytes
  pub output : p.State → Bytes
  pub read_full :
      (n : ℕ) (st : p.State)
      → n ≤ length (input st)
      → (p.read n st).0 ≡ ReadResult.received (take n (input st))
  pub input-read :
      (n : ℕ) (st : p.State) → n ≤ length (input st) → input (p.read n st).1 ≡ drop n (input st)
  pub read_end :
      (n : ℕ) (st : p.State) → length (input st) < n → (p.read n st).0 ≡ ReadResult.closed
  pub output-read : (n : ℕ) (st : p.State) → output (p.read n st).1 ≡ output st
  pub write_done : (b : Bytes) (st : p.State) → (p.write b st).0 ≡ true
  pub output-write : (b : Bytes) (st : p.State) → output (p.write b st).1 ≡ output st ++ b
  pub input-write : (b : Bytes) (st : p.State) → input (p.write b st).1 ≡ input st
  pub allocates_all : (n : ℕ) → p.allocates n ≡ true

-- Messages as they stand in a pipe, one behind the other.
unfoldable pub frames : List Bytes → Bytes
frames [] = []
frames (m ∷ ms) = htonl (length m) ++ (m ++ frames ms)

module _ (json : OperationCodec) (codec : ServiceCodec json) where
  -- The calls of the event stream that a message asks for: one, if it is a document that names an
  -- operation.
  unfoldable pub calls_of : Bytes → List (Call json)
  calls_of text = elim (codec.parse text) [
    | none ↦ []
    | some doc ↦ elim (codec.operation_name doc) [
      | none ↦ []
      | some name ↦
          Call.posts (record { type = operation_type name; payload = codec.data_of doc }) ∷ []
    ]
  ]

  unfoldable pub all_calls : List Bytes → List (Call json)
  all_calls [] = []
  all_calls (m ∷ ms) = calls_of m ++ all_calls ms

module _ (json : OperationCodec) (codec : ServiceCodec json) (p : Pipes) (law : IsReliable p) where
  pub output-write_message :
      (text : Bytes) (st : p.State)
      → law.output (write_message json codec p text st)
        ≡ law.output st ++ (htonl (length text) ++ text)
  unfolding write_message
  output-write_message text st = rw (law.write_done (htonl (length text)) st) (
      law.output-write text (p.write (htonl (length text)) st).1
      ∙ ap (λ o. o ++ text) (law.output-write (htonl (length text)) st)
      ∙ append_assoc (law.output st) (htonl (length text)) text)

  pub input-write_message :
      (text : Bytes) (st : p.State) → law.input (write_message json codec p text st) ≡ law.input st
  unfolding write_message
  input-write_message text st = rw (law.write_done (htonl (length text)) st) (
      law.input-write text (p.write (htonl (length text)) st).1
      ∙ law.input-write (htonl (length text)) st)

  -- What handling a message does to the state.
  pub record Handled (text : Bytes) (s t : Service json codec p) : Type 0 where
    pub posted : t.event_stream ≡ after json (calls_of json codec text) s.event_stream
    pub same_running : t.running ≡ s.running
    pub same_input : law.input t.pipes ≡ law.input s.pipes

  -- A message that is sent, or cannot be written as text, leaves all but the output as it was.
  send_message-Handled :
      (out : Outgoing) (now : ℕ) (text : Bytes) (s : Service json codec p)
      → calls_of json codec text ≡ []
      → Handled text s (send_message json codec p out now s)
  unfolding send_message after
  send_message-Handled out now text s silent =
      option_cases (Handled text s) (codec.dump out now) _ _
        (record { posted = rw silent refl; same_running = refl; same_input = refl })
        (λ written _. record {
          posted = rw silent refl;
          same_running = refl;
          same_input = input-write_message written s.pipes;
        })

  pub handle_message-Handled :
      (text : Bytes) (now : ℕ) (s : Service json codec p)
      → Handled text s (handle_message json codec p text now s)
  unfolding handle_message calls_of after step
  handle_message-Handled text now s = elim (Option-cases (codec.parse text)) [
    | inl e ↦
        rw (handle_message, e)
          (send_message-Handled (Outgoing.processing_failed text) now text s
            (rw (calls_of, e) refl))
    | inr (doc, e) ↦
        rw (handle_message, e)
          (elim (Option-cases (codec.operation_name doc)) [
            | inl e' ↦ rw e' (record {
              posted = rw (calls_of, e, e') refl;
              same_running = refl;
              same_input = refl;
            })
            | inr (name, e') ↦ rw e' (record {
              posted = rw (calls_of, e, e') refl;
              same_running = refl;
              same_input = refl;
            })
          ])
  ]
