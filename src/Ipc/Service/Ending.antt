-- ===== src/Ipc/Service/Ending.antt =====
-- IpcService::read_message_loop, on any bytes: its rounds, and the messages it does not read.
use lan_send.Base.{
  ℕ, ◌^◌, ◌/◌, ◌+◌, ◌≤◌, ◌<◌, ◌≡◌, refl, subst, ◌∙◌, ap, sym, some, Option, true, false, length,
  take, ltb, ◌==◌, List, [], ◌∷◌, ◌++◌, ◌⊎◌, inl, inr, if_keeps, Bool-cases, length-drop, arith,
  ltb→lt,
}
use lan_send.Message.{Bytes, htonl, ntohl}
use lan_send.Ipc.Operation.{OperationCodec}
use lan_send.Ipc.Service.{
  Pipes, ServiceCodec, Service, max_length, handle_message, read_content, read_round, read_loop,
  read_message_loop,
}
use lan_send.Ipc.Service.Reliable.{IsReliable, handle_message-Handled}
use lan_send.Ipc.Service.Reading.{
  past, got_header, left_header, going_on, stopped_loop, ntohl-htonl_alone, length-htonl,
}

longer : (n m : ℕ) → m < n → ltb m n ≡ true
longer n m h = ground arith

not_less : (n m : ℕ) → ltb n m ≡ false → m ≤ n
not_less n m h = ground arith

module _ (json : OperationCodec) (codec : ServiceCodec json) (p : Pipes) (law : IsReliable p) where
  abbrev left : Service json codec p → ℕ
  left s = length (law.input s.pipes)

  -- The loop stops, or goes on with `k` bytes less at least.
  Advances : ℕ → Service json codec p → Service json codec p → Type 0
  Advances k s t = (t.running ≡ false) ⊎ (k + left t ≤ left s)

  stops : (k : ℕ) (s t : Service json codec p) → t.running ≡ false → Advances k s t
  unfolding Advances
  stops k s t h = inl h

  goes_on : (k : ℕ) (s t : Service json codec p) → k + left t ≤ left s → Advances k s t
  unfolding Advances
  goes_on k s t h = inr h

  handle_message-Advances :
      (b : Bytes) (k now : ℕ) (s t : Service json codec p)
      → k + left t ≤ left s
      → Advances k s (handle_message json codec p b now t)
  handle_message-Advances b k now s t h =
      let same = (handle_message-Handled json codec p law b now t).same_input in
      goes_on k s (handle_message json codec p b now t) (omega (arith, ap length same, h))

  left-past :
      (n : ℕ) (t : Service json codec p)
      → n ≤ left t
      → n + left (past json codec p law n t) ≤ left t
  left-past n t h = rw (law.input-read n t.pipes h, length-drop n (law.input t.pipes)) (omega arith)

  read_content-Advances :
      (n k now : ℕ) (s t : Service json codec p)
      → k + left t ≤ left s
      → Advances k s (read_content json codec p n now t)
  unfolding read_content
  read_content-Advances n k now s t h = elim (Bool-cases (ltb (left t) n)) [
    | inl short ↦ rw (read_content, law.read_end n t.pipes (ltb→lt _ _ short)) (stops k s _ refl)
    | inr full ↦
        let enough = not_less (left t) n full in
        let fewer = left-past n t enough in
        rw (read_content, law.read_full n t.pipes enough)
          (if_keeps (Advances k s) (length (take n (law.input t.pipes)) == n) _ _
            (handle_message-Advances (take n (law.input t.pipes)) k now s
              (past json codec p law n t) (omega arith))
            (goes_on k s (past json codec p law n t) (omega arith)))
  ]

  read_round-Advances :
      (now : ℕ) (s : Service json codec p) → Advances 4 s (read_round json codec p now s)
  unfolding read_round
  read_round-Advances now s = elim (Bool-cases (ltb (left s) 4)) [
    | inl short ↦ rw (read_round, law.read_end 4 s.pipes (ltb→lt _ _ short)) (stops 4 s _ refl)
    | inr full ↦
        let enough = not_less (left s) 4 full in
        let t = past json codec p law 4 s in
        let fewer = left-past 4 s enough in
        let b = take 4 (law.input s.pipes) in
        let same = goes_on 4 s t fewer in
        rw (read_round, law.read_full 4 s.pipes enough)
          (if_keeps (Advances 4 s) (length b == 4) _ _
            (if_keeps (Advances 4 s) (ltb max_length (ntohl b)) _ _ same (
              if_keeps (Advances 4 s) (p.allocates (ntohl b)) _ _
                (read_content-Advances (ntohl b) 4 now s t fewer) same))
            same)
  ]

  Stops : Option (Service json codec p) → Type 0
  Stops o = (t : Service json codec p) × (o ≡ some t) × (t.running ≡ false)

  read_loop-Stops :
      (times : List ℕ) (s : Service json codec p)
      → left s / 4 < length times
      → Stops (read_loop json codec p times s)
  unfolding Stops Advances
  read_loop-Stops [] s h = absurd (omega arith)
  read_loop-Stops (now ∷ times) s h = elim (Bool-cases s.running) [
    | inr off ↦ (s, stopped_loop json codec p law (now ∷ times) s off, off)
    | inl on ↦
        let t = read_round json codec p now s in
        subst Stops (sym (going_on json codec p law now times s on))
          (elim (read_round-Advances now s) [
            | inl off ↦ (t, stopped_loop json codec p law times t off, off)
            | inr fewer ↦ read_loop-Stops times t (omega arith)
          ])
  ]

  -- Whatever bytes the interface wrote before it closed the pipe, well formed or not: with more rounds
  -- than a quarter of the number of bytes, the loop ends, and the flag is down.
  pub read_message_loop-stops :
      (times : List ℕ) (s : Service json codec p)
      → length (law.input s.pipes) / 4 < length times
      → (t : Service json codec p) × (read_message_loop json codec p times s ≡ some t)
        × (t.running ≡ false)
  unfolding read_message_loop Stops
  read_message_loop-stops times s = read_loop-Stops times (record s { running = true })

  oversized_round :
      (n : ℕ) (rest : Bytes) (now : ℕ) (s : Service json codec p)
      → max_length < n
      → n < 2 ^ 32
      → law.input s.pipes ≡ htonl n ++ rest
      → read_round json codec p now s ≡ past json codec p law 4 s
  unfolding read_round
  oversized_round n rest now s over fits e =
      rw
        (
          read_round,
          got_header json codec p law n rest s.pipes e,
          length-htonl n,
          ntohl-htonl_alone n fits,
          longer n max_length over,
        )
        refl

  -- A message that announces more than 10 MiB is refused, but its text is not skipped: the loop goes on
  -- with the bytes behind the header, as if no header had stood there, and takes the text of the
  -- message for headers and messages of its own.
  pub read_message_loop-oversized :
      (n : ℕ) (rest : Bytes) (now : ℕ) (times : List ℕ) (s : Service json codec p)
      → max_length < n
      → n < 2 ^ 32
      → law.input s.pipes ≡ htonl n ++ rest
      → (st : p.State) × (law.input st ≡ rest)
        × (law.output st ≡ law.output s.pipes)
        × (read_message_loop json codec p (now ∷ times) s
            ≡ read_message_loop json codec p times (record s { pipes = st }))
  unfolding read_message_loop
  read_message_loop-oversized n rest now times s over fits e =
      let on = record s { running = true } in
      (
        (p.read 4 s.pipes).1,
        left_header json codec p law n rest s.pipes e,
        law.output-read 4 s.pipes,
        going_on json codec p law now times on refl
            ∙ ap (read_loop json codec p times) (oversized_round n rest now on over fits e),
      )
