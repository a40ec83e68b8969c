-- ===== src/Ipc/Service/Telling.antt =====
-- IpcService::read_event_stream_loop and send_message: what reaches the interface.
use lan_send.Base.{
  ℕ, zero, suc, ◌≡◌, refl, ◌∙◌, ap, sym, none, some, true, length, drop, List, [], ◌∷◌, ◌++◌,
  append-nil, append_assoc, if_true, option_cases, Option-cases, inl, inr,
}
use lan_send.Model.{Feedback}
use lan_send.Message.{Bytes, htonl}
use lan_send.Ipc.Operation.{OperationCodec}
use lan_send.Ipc.EventStream.{IpcEventStream, poll_feedback, pop_front}
use lan_send.Ipc.EventStream.Order.{one}
use lan_send.Ipc.Service.{
  Pipes, Outgoing, ServiceCodec, Service, send_message, feedback_round, read_event_stream_loop,
}
use lan_send.Ipc.Service.Reliable.{IsReliable, frames, output-write_message}

frames-append : (xs ys : List Bytes) → frames (xs ++ ys) ≡ frames xs ++ frames ys
unfolding frames
frames-append [] ys = refl
frames-append (x ∷ xs) ys =
    ap (λ b. htonl (length x) ++ (x ++ b)) (frames-append xs ys)
    ∙ ap (◌++◌ (htonl (length x))) (sym (append_assoc x (frames xs) (frames ys)))
    ∙ sym (append_assoc (htonl (length x)) (x ++ frames xs) (frames ys))

nothing_polled :
    {Doc : Type 0} (q : IpcEventStream Doc) → q.feedbacks ≡ [] → (poll_feedback q).0 ≡ none
unfolding poll_feedback pop_front
nothing_polled q e = rw e refl

first_polled :
    {Doc : Type 0} (f : Feedback) (fs : List Feedback) (q : IpcEventStream Doc)
    → q.feedbacks ≡ f ∷ fs
    → ((poll_feedback q).0 ≡ some f) × ((poll_feedback q).1 ≡ record q { feedbacks = fs })
unfolding poll_feedback pop_front
first_polled f fs q e = rw e (refl, refl)

drop-nil : (n : ℕ) → drop {A = Feedback} n [] ≡ []
drop-nil zero = refl
drop-nil (suc n) = refl

module _ (json : OperationCodec) (codec : ServiceCodec json) where
  -- The texts of feedbacks that are sent at these times: the first feedback at the first time, and so
  -- on. A feedback that cannot be written as text is lost.
  unfoldable pub texts : List ℕ → List Feedback → List Bytes
  texts [] fs = []
  texts (now ∷ times) [] = []
  texts (now ∷ times) (f ∷ fs) = one (codec.dump (Outgoing.told f) now) ++ texts times fs

module _ (json : OperationCodec) (codec : ServiceCodec json) (p : Pipes) (law : IsReliable p) where
  output-send_message :
      (out : Outgoing) (now : ℕ) (s : Service json codec p)
      → law.output (send_message json codec p out now s).pipes
        ≡ law.output s.pipes ++ frames (one (codec.dump out now))
  unfolding send_message frames
  output-send_message out now s = elim (Option-cases (codec.dump out now)) [
    | inl e ↦ rw (send_message, e) (sym (append-nil (law.output s.pipes)))
    | inr (text, e) ↦
        rw (send_message, e)
          (output-write_message json codec p law text s.pipes
            ∙ ap (λ b. law.output s.pipes ++ (htonl (length text) ++ b)) (sym (append-nil text)))
  ]

  send_message-same :
      (out : Outgoing) (now : ℕ) (s : Service json codec p)
      → ((send_message json codec p out now s).event_stream ≡ s.event_stream)
        × ((send_message json codec p out now s).running ≡ s.running)
  unfolding send_message
  send_message-same out now s =
      option_cases
        (λ (t : Service json codec p). (t.event_stream ≡ s.event_stream) × (t.running ≡ s.running))
        (codec.dump out now) _ _ (refl, refl) (λ text _. (refl, refl))

  -- The state in which the first feedback has left the queue.
  rest_told : List Feedback → Service json codec p → Service json codec p
  rest_told fs s = record s { event_stream = record s.event_stream { feedbacks = fs } }

  round_silent :
      (now : ℕ) (s : Service json codec p)
      → s.event_stream.feedbacks ≡ []
      → feedback_round json codec p now s ≡ s
  unfolding feedback_round
  round_silent now s e = rw (feedback_round, nothing_polled s.event_stream e) refl

  round_first :
      (now : ℕ) (f : Feedback) (fs : List Feedback) (s : Service json codec p)
      → s.event_stream.feedbacks ≡ f ∷ fs
      → feedback_round json codec p now s
        ≡ send_message json codec p (Outgoing.told f) now (rest_told fs s)
  unfolding feedback_round rest_told
  round_first now f fs s e =
      let polled = first_polled f fs s.event_stream e in
      rw (feedback_round, polled.0)
        (ap (λ q. send_message json codec p (Outgoing.told f) now (record s { event_stream = q }))
          polled.1)

  -- After these rounds, from a queue with these feedbacks.
  Tells : List ℕ → List Feedback → Service json codec p → Service json codec p → Type 0
  Tells times fs s t =
      (law.output t.pipes ≡ law.output s.pipes ++ frames (texts json codec times fs))
      × (t.event_stream.feedbacks ≡ drop (length times) fs)

  going_on :
      (now : ℕ) (times : List ℕ) (s : Service json codec p)
      → s.running ≡ true
      → read_event_stream_loop json codec p (now ∷ times) s
        ≡ read_event_stream_loop json codec p times (feedback_round json codec p now s)
  unfolding read_event_stream_loop
  going_on now times s on = if_true s.running _ _ on

  texts-nil : (times : List ℕ) → texts json codec times [] ≡ []
  unfolding texts
  texts-nil [] = refl
  texts-nil (now ∷ times) = refl

  loop-Tells :
      (times : List ℕ) (fs : List Feedback) (s : Service json codec p)
      → s.running ≡ true
      → s.event_stream.feedbacks ≡ fs
      → Tells times fs s (read_event_stream_loop json codec p times s)
  unfolding read_event_stream_loop texts frames Tells rest_told
  loop-Tells [] fs s on e = (sym (append-nil (law.output s.pipes)), e)
  loop-Tells (now ∷ times) [] s on e =
      let rest = loop-Tells times [] s on e in
      rw
        (going_on now times s on
          ∙ ap (read_event_stream_loop json codec p times) (round_silent now s e))
        (
          rest.0 ∙ ap (λ l. law.output s.pipes ++ frames l) (texts-nil times),
          rest.1 ∙ drop-nil (length times),
        )
  loop-Tells (now ∷ times) (f ∷ fs) s on e =
      let s' = rest_told fs s in
      let t = send_message json codec p (Outgoing.told f) now s' in
      let same = send_message-same (Outgoing.told f) now s' in
      let text = one (codec.dump (Outgoing.told f) now) in
      let rest = loop-Tells times fs t (same.1 ∙ on) (ap (λ q. q.feedbacks) same.0) in
      rw
        (going_on now times s on
          ∙ ap (read_event_stream_loop json codec p times) (round_first now f fs s e))
        (
          rest.0
              ∙ ap (λ o. o ++ frames (texts json codec times fs))
                  (output-send_message (Outgoing.told f) now s')
              ∙ append_assoc (law.output s.pipes) (frames text) (frames (texts json codec times fs))
              ∙ ap (◌++◌ (law.output s.pipes))
                  (sym (frames-append text (texts json codec times fs))),
          rest.1,
        )

  -- Rounds of the loop, while the flag is up: each takes one feedback off the queue, in their order,
  -- and writes it behind its length; those that the rounds were too few for stay in the queue.
  pub read_event_stream_loop-tells :
      (times : List ℕ) (s : Service json codec p)
      → s.running ≡ true
      → (law.output (read_event_stream_loop json codec p times s).pipes
          ≡ law.output s.pipes ++ frames (texts json codec times s.event_stream.feedbacks))
        × ((read_event_stream_loop json codec p times s).event_stream.feedbacks
            ≡ drop (length times) s.event_stream.feedbacks)
  unfolding Tells
  read_event_stream_loop-tells times s on = loop-Tells times s.event_stream.feedbacks s on refl
