-- ===== src/Tests/Piping.antt =====
-- The pipes of the interface, as two lists of bytes.
use lan_send.Base.{
  ℕ, ◌≤◌, ◌≡◌, refl, String, some, none, true, false, length, take, drop, ltb, ◌==◌, if◌then◌else◌,
  if_keeps, List, [], ◌∷◌, ◌++◌, arith, lt→ltb,
}
use lan_send.Model.{Feedback}
use lan_send.Message.{Bytes, htonl}
use lan_send.Tests.Operating.{texts, quiet, operation, service}
use lan_send.Ipc.EventStream.Order.{after}
use lan_send.Ipc.Service.{
  ReadResult, Pipes, ServiceCodec, Service, operation_type, read_message_loop,
  read_event_stream_loop,
}
use lan_send.Ipc.Service.Reliable.{IsReliable, frames, calls_of, all_calls}
use lan_send.Ipc.Service.Reading.{Delivers, read_message_loop-Delivers}
use lan_send.Ipc.Service.Ending.{read_message_loop-stops, read_message_loop-oversized}
use lan_send.Ipc.Operation.{OperationType, Operation}
use lan_send.Ipc.Backend.{dispatch_operation, rounds}
use lan_send.Ipc.Backend.Rounds.{with_queue, dispatch_all}
use lan_send.Ipc.Service.Commands.{Names, rounds-read_message_loop}
use lan_send.Ipc.Service.Telling.{texts as sent_texts, read_event_stream_loop-tells}

abbrev bytes : Pipes
bytes = record {
  State = Bytes × Bytes;
  read = λ n st.
      if ltb (length st.0) n
      then (ReadResult.closed, ([], st.1))
      else (ReadResult.received (take n st.0), (drop n st.0, st.1));
  write = λ b st. (true, (st.0, st.1 ++ b));
  allocates = λ n. true;
}

not_less : (n m : ℕ) → n ≤ m → ltb m n ≡ false
not_less n m h = ground arith

abbrev reliable : IsReliable bytes
reliable = record {
  input = λ st. st.0;
  output = λ st. st.1;
  read_full = λ n st h. rw (not_less n (length st.0) h) refl;
  input-read = λ n st h. rw (not_less n (length st.0) h) refl;
  read_end = λ n st h. rw (lt→ltb (length st.0) n h) refl;
  output-read = λ n st.
      if_keeps (λ (r : ReadResult × (Bytes × Bytes)). r.1.1 ≡ st.1) (ltb (length st.0) n) _ _ refl
        refl;
  write_done = λ b st. refl;
  output-write = λ b st. refl;
  input-write = λ b st. refl;
  allocates_all = λ n. refl;
}

-- An empty text is no document, and a text that begins with 9 asks for the exit.
abbrev codec : ServiceCodec texts
codec = record {
  parse =
      λ b. elim b [ [] ↦ none | x ∷ xs ↦ some (if x == 9 then "ExitApp" else "ConnectToDevice") ];
  operation_name = λ d. some d;
  data_of = λ d. "dev";
  dump = λ out now. some (now ∷ now ∷ []);
}

abbrev service_on : Bytes → Service texts codec bytes
service_on b = record {
  pipes = (b, []);
  event_stream = record quiet {
    feedbacks = Feedback.network_error ∷ Feedback.lost_device "d" ∷ [];
  };
  running = true;
}

abbrev messages : List Bytes
messages = (7 ∷ 8 ∷ []) ∷ [] ∷ (9 ∷ []) ∷ []

read_message_loop-Delivers_example :
    Delivers texts codec bytes reliable
      (read_message_loop texts codec bytes (1 ∷ 2 ∷ 3 ∷ 4 ∷ []) (service_on (frames messages)))
      (after texts (all_calls texts codec messages) (service_on []).event_stream)
read_message_loop-Delivers_example =
    read_message_loop-Delivers texts codec bytes reliable messages (1 ∷ 2 ∷ 3 ∷ 4 ∷ [])
      (service_on (frames messages)) (omega arith, (omega arith, (omega arith, tt))) refl
      (omega arith)

read_message_loop-stops_example :
    (t : Service texts codec bytes) × (read_message_loop texts codec bytes
        (1 ∷ 2 ∷ [])
        (service_on (0 ∷ 0 ∷ 0 ∷ 9 ∷ 5 ∷ []))
      ≡ some t)
    × (t.running ≡ false)
read_message_loop-stops_example =
    read_message_loop-stops texts codec bytes reliable (1 ∷ 2 ∷ [])
      (service_on (0 ∷ 0 ∷ 0 ∷ 9 ∷ 5 ∷ [])) (omega arith)

abbrev too_large : ℕ
too_large = 10485761

read_message_loop-oversized_example :
    (st : Bytes × Bytes) × (st.0 ≡ 0 ∷ 0 ∷ 0 ∷ 1 ∷ 7 ∷ [])
    × (st.1 ≡ [])
    × (read_message_loop texts codec bytes
          (1 ∷ 2 ∷ 3 ∷ [])
          (service_on (htonl too_large ++ (0 ∷ 0 ∷ 0 ∷ 1 ∷ 7 ∷ [])))
        ≡ read_message_loop texts codec bytes (2 ∷ 3 ∷ []) (record (service_on []) { pipes = st }))
read_message_loop-oversized_example =
    read_message_loop-oversized texts codec bytes reliable too_large (0 ∷ 0 ∷ 0 ∷ 1 ∷ 7 ∷ []) 1
      (2 ∷ 3 ∷ []) (service_on (htonl too_large ++ (0 ∷ 0 ∷ 0 ∷ 1 ∷ 7 ∷ []))) (omega arith)
      (omega arith) refl

read_event_stream_loop-tells_example :
    (reliable.output (read_event_stream_loop texts codec bytes (5 ∷ []) (service_on [])).pipes
      ≡ reliable.output (service_on []).pipes
        ++ frames (sent_texts texts codec (5 ∷ []) (service_on []).event_stream.feedbacks))
    × ((read_event_stream_loop texts codec bytes (5 ∷ []) (service_on [])).event_stream.feedbacks
        ≡ drop 1 (service_on []).event_stream.feedbacks)
read_event_stream_loop-tells_example =
    read_event_stream_loop-tells texts codec bytes reliable (5 ∷ []) (service_on []) refl

-- The operations that the first and the third message name.
abbrev connect_op : Operation String
connect_op = operation OperationType.connect_to_device

abbrev exit_op : Operation String
exit_op = operation OperationType.exit_app

abbrev written : List Bytes
written = (7 ∷ []) ∷ (9 ∷ []) ∷ (8 ∷ 8 ∷ []) ∷ []

written-Names : Names texts codec written (connect_op ∷ exit_op ∷ connect_op ∷ [])
unfolding calls_of operation_type
written-Names = (refl, refl, (refl, refl, (refl, refl, tt)))

rounds-read_message_loop_example :
    (t : Service texts codec bytes) × (read_message_loop texts codec bytes
        (1 ∷ 2 ∷ 3 ∷ 4 ∷ [])
        (service_on (frames written))
      ≡ some t)
    × (rounds texts 5 (t.event_stream, service) ≡ (
      with_queue (connect_op ∷ []) (service_on []).event_stream,
      dispatch_operation texts exit_op (dispatch_all texts (connect_op ∷ []) service),
    ))
rounds-read_message_loop_example =
    rounds-read_message_loop texts codec bytes reliable written (1 ∷ 2 ∷ 3 ∷ 4 ∷ [])
      (service_on (frames written)) (connect_op ∷ []) (connect_op ∷ []) exit_op 5 service refl
      (omega arith, (omega arith, (omega arith, tt))) (omega arith) written-Names refl refl
      ((λ e. cc), tt) refl (omega arith)
