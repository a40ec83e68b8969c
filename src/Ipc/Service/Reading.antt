-- ===== src/Ipc/Service/Reading.antt =====
-- IpcService::read_message_loop, on whole messages.
use lan_send.Base.{
  ℕ, ◌^◌, if_true, ==_refl, ◌==◌, ◌≤◌, ◌<◌, ◌≡◌, refl, ◌∙◌, ap, sym, some, Option, true, false,
  length, take, drop, List, [], ◌∷◌, ◌++◌, length-append, take-append_length, drop-append_length,
  arith, ltb,
}
use lan_send.Message.{Bytes, htonl, ntohl}
use lan_send.Message.RoundTrip.{ntohl-htonl}
use lan_send.Ipc.Operation.{OperationCodec}
use lan_send.Ipc.EventStream.{IpcEventStream}
use lan_send.Ipc.EventStream.Order.{Call, after, step}
use lan_send.Ipc.Service.{
  ReadResult, Pipes, ServiceCodec, Service, max_length, handle_message, read_content, read_round,
  read_loop, read_message_loop,
}
use lan_send.Ipc.Service.Reliable.{IsReliable, frames, calls_of, all_calls, handle_message-Handled}

abbrev pub AllFit : List Bytes → Type 0
AllFit [] = Unit {0}
AllFit (m ∷ ms) = (length m ≤ max_length) × AllFit ms

not_longer : (n m : ℕ) → n ≤ m → ltb m n ≡ false
not_longer n m h = ground arith

take-header : (n : ℕ) (rest : Bytes) → take 4 (htonl n ++ rest) ≡ htonl n
unfolding htonl
take-header n rest = refl

drop-header : (n : ℕ) (rest : Bytes) → drop 4 (htonl n ++ rest) ≡ rest
unfolding htonl
drop-header n rest = refl

header_there : (n : ℕ) (rest : Bytes) → 4 ≤ length (htonl n ++ rest)
unfolding htonl
header_there n rest = omega arith

pub ntohl-htonl_alone : (n : ℕ) → n < 2 ^ 32 → ntohl (htonl n) ≡ n
unfolding htonl
ntohl-htonl_alone n h = ntohl-htonl n [] h

pub length-htonl : (n : ℕ) → (length (htonl n) == 4) ≡ true
unfolding htonl
length-htonl n = refl

after-append :
    (json : OperationCodec) (xs ys : List (Call json)) (s : IpcEventStream json.Doc)
    → after json (xs ++ ys) s ≡ after json ys (after json xs s)
unfolding after
after-append json [] ys s = refl
after-append json (x ∷ xs) ys s = after-append json xs ys (step json x s)

module _ (json : OperationCodec) (codec : ServiceCodec json) (p : Pipes) (law : IsReliable p) where
  got_bytes :
      (m rest : Bytes) (st : p.State)
      → law.input st ≡ m ++ rest
      → (p.read (length m) st).0 ≡ ReadResult.received m
  got_bytes m rest st e =
      law.read_full (length m) st (rw (e, length-append m rest) (omega arith))
      ∙ ap ReadResult.received (ap (take (length m)) e ∙ take-append_length m rest)

  left_bytes :
      (m rest : Bytes) (st : p.State)
      → law.input st ≡ m ++ rest
      → law.input (p.read (length m) st).1 ≡ rest
  left_bytes m rest st e =
      law.input-read (length m) st (rw (e, length-append m rest) (omega arith))
      ∙ ap (drop (length m)) e
      ∙ drop-append_length m rest

  -- The state after the header was read.
  abbrev pub past : ℕ → Service json codec p → Service json codec p
  past n s = record s { pipes = (p.read n s.pipes).1 }

  pub got_header :
      (n : ℕ) (rest : Bytes) (st : p.State)
      → law.input st ≡ htonl n ++ rest
      → (p.read 4 st).0 ≡ ReadResult.received (htonl n)
  unfolding htonl
  got_header n rest st e = got_bytes (htonl n) rest st e

  pub left_header :
      (n : ℕ) (rest : Bytes) (st : p.State)
      → law.input st ≡ htonl n ++ rest
      → law.input (p.read 4 st).1 ≡ rest
  unfolding htonl
  left_header n rest st e = left_bytes (htonl n) rest st e

  read_header :
      (n : ℕ) (rest : Bytes) (now : ℕ) (s : Service json codec p)
      → n ≤ max_length
      → law.input s.pipes ≡ htonl n ++ rest
      → read_round json codec p now s ≡ read_content json codec p n now (past 4 s)
  unfolding read_round
  read_header n rest now s fits e =
      rw
        (
          read_round,
          got_header n rest s.pipes e,
          length-htonl n,
          ntohl-htonl_alone n (omega arith),
          not_longer n max_length fits,
          law.allocates_all n,
        )
        refl

  read_body :
      (m rest : Bytes) (now : ℕ) (s : Service json codec p)
      → law.input s.pipes ≡ m ++ rest
      → read_content json codec p (length m) now s
        ≡ handle_message json codec p m now (past (length m) s)
  unfolding read_content
  read_body m rest now s e = rw (read_content, got_bytes m rest s.pipes e, ==_refl (length m)) refl

  -- A round on a message that fits hands it over and leaves the rest.
  read_frame :
      (m rest : Bytes) (now : ℕ) (s : Service json codec p)
      → length m ≤ max_length
      → law.input s.pipes ≡ htonl (length m) ++ (m ++ rest)
      → (read_round json codec p now s).event_stream
          ≡ after json (calls_of json codec m) s.event_stream
        × (read_round json codec p now s).running ≡ s.running
        × law.input (read_round json codec p now s).pipes ≡ rest
  read_frame m rest now s fits e =
      let left = left_header (length m) (m ++ rest) s.pipes e in
      let s' = past (length m) (past 4 s) in
      let h = handle_message-Handled json codec p law m now s' in
      rw (read_header (length m) (m ++ rest) now s fits e ∙ read_body m rest now (past 4 s) left)
        (h.posted, h.same_running, h.same_input ∙ left_bytes m rest (p.read 4 s.pipes).1 left)

  pub going_on :
      (now : ℕ) (times : List ℕ) (s : Service json codec p)
      → s.running ≡ true
      → read_loop json codec p (now ∷ times) s
        ≡ read_loop json codec p times (read_round json codec p now s)
  unfolding read_loop
  going_on now times s on = if_true s.running _ _ on

  pub stopped_loop :
      (times : List ℕ) (s : Service json codec p)
      → s.running ≡ false
      → read_loop json codec p times s ≡ some s
  unfolding read_loop
  stopped_loop [] s e = rw e refl
  stopped_loop (now ∷ times) s e = rw e refl

  -- A round on an empty pipe stops the loop.
  read_nothing :
      (now : ℕ) (s : Service json codec p)
      → law.input s.pipes ≡ []
      → read_round json codec p now s ≡ record s { pipes = (p.read 4 s.pipes).1; running = false }
  unfolding read_round
  read_nothing now s e = rw (read_round, law.read_end 4 s.pipes (rw e (omega arith))) refl

  -- Where the loop ends, and what it has done to the event stream.
  abbrev pub Delivers : Option (Service json codec p) → IpcEventStream json.Doc → Type 0
  Delivers o events =
      (t : Service json codec p) × (o ≡ some t) × (t.event_stream ≡ events) × (t.running ≡ false)

  read_loop-Delivers :
      (messages : List Bytes) (times : List ℕ) (s : Service json codec p)
      → s.running ≡ true
      → AllFit messages
      → law.input s.pipes ≡ frames messages
      → length messages < length times
      → Delivers
          (read_loop json codec p times s)
          (after json (all_calls json codec messages) s.event_stream)
  unfolding read_loop all_calls frames after
  read_loop-Delivers messages [] s on fits e long = absurd (omega arith)
  read_loop-Delivers [] (now ∷ times) s on fits e long =
      let s' = record s { pipes = (p.read 4 s.pipes).1; running = false } in
      (
        s',
        (going_on now times s on
            ∙ ap (read_loop json codec p times) (read_nothing now s e)
            ∙ stopped_loop times s' refl),
        refl,
        refl,
      )
  read_loop-Delivers (m ∷ ms) (now ∷ times) s on fits e long =
      let s' = read_round json codec p now s in
      let one = read_frame m (frames ms) now s fits.0 e in
      let rest = read_loop-Delivers ms times s' (one.1 ∙ on) fits.1 one.2 (omega arith) in
      (
        rest.0,
        going_on now times s on ∙ rest.1,
        rest.2
            ∙ ap (after json (all_calls json codec ms)) one.0
            ∙ sym (
                after-append json (calls_of json codec m) (all_calls json codec ms) s.event_stream),
        rest.3,
      )

  -- The interface wrote any number of messages of at most 10 MiB, each behind its length, and closed
  -- the pipe: given one round more than there are messages, the loop ends, with the flag down, and the
  -- event stream is as it was, with the operations that the messages name posted to it in their
  -- order. A message that is no JSON document or names no operation posts nothing.
  pub read_message_loop-Delivers :
      (messages : List Bytes) (times : List ℕ) (s : Service json codec p)
      → AllFit messages
      → law.input s.pipes ≡ frames messages
      → length messages < length times
      → Delivers
          (read_message_loop json codec p times s)
          (after json (all_calls json codec messages) s.event_stream)
  unfolding read_message_loop
  read_message_loop-Delivers messages times s =
      read_loop-Delivers messages times (record s { running = true }) refl
