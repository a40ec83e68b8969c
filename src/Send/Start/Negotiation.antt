-- ===== src/Send/Start/Negotiation.antt =====
-- How the request loop of SendSession::Start ends.
use lan_send.Base.{
  ℕ, zero, suc, Option, some, Bool, true, false, ◌≡◌, refl, ◌∙◌, ap, ◌||◌, if_keeps, if_cases,
  option_cases, arith,
}
use lan_send.Json.{Codec}
use lan_send.Model.{SessionStatus, RequestSendDto, RequestSendResponseDto}
use lan_send.Http.{Body}
use lan_send.Send.{SendSession, Network, is_cancelled, by_sender, cancelled_meanwhile}
use lan_send.Send.Start.{is_waiting, is_failed, request_send, declined, negotiate, Negotiated}
use lan_send.Send.Start.Negotiated.{goes_on, over, undefined, unfinished}

-- No more is done for such a session.
abbrev pub has_ended : SessionStatus → Bool
has_ended SessionStatus.idle = false
has_ended SessionStatus.waiting = false
has_ended SessionStatus.sending = false
has_ended _ = true

pub stopped_ended :
    (st : SessionStatus) → (is_cancelled st || is_failed st) ≡ true → has_ended st ≡ true
stopped_ended st h = ground arith

by_sender_ended : (st : SessionStatus) → by_sender st ≡ true → has_ended st ≡ true
by_sender_ended st h = ground arith

module _ (net : Network) (json : Codec) (read : Body → Option RequestSendResponseDto) where
  -- Each of so many requests was answered that the receiver is busy, and the user waited on.
  pub StaysBusy : ℕ → RequestSendDto → SendSession → net.State → Type 0
  StaysBusy zero dto s w = Unit {0}
  StaysBusy (suc n) dto s w =
      (s' : SendSession) × (w' : net.State) × (request_send net json read dto s w
        ≡ some ((false, s'), w'))
      × (is_waiting (cancelled_meanwhile (net.sleep w').0 s').session_status ≡ true)
      × StaysBusy n dto (cancelled_meanwhile (net.sleep w').0 s') (net.sleep w').1

  -- The loop ends the session, or goes on, or the fuel was not enough for a receiver that stayed busy.
  unfoldable pub Ends :
      ℕ → RequestSendDto → SendSession → net.State → Negotiated net json read → Type 0
  Ends fuel dto s w (goes_on s' w') = Unit {0}
  Ends fuel dto s w (over s' w') = has_ended s'.session_status ≡ true
  Ends fuel dto s w undefined = Unit {0}
  Ends fuel dto s w unfinished = StaysBusy fuel dto s w

  module _ (fuel : ℕ) (dto : RequestSendDto) (s : SendSession) (w : net.State) where
    goes_on-Ends : (s' : SendSession) (w' : net.State) → Ends fuel dto s w (goes_on s' w')
    unfolding Ends
    goes_on-Ends s' w' = tt

    over-Ends :
        (s' : SendSession) (w' : net.State)
        → has_ended s'.session_status ≡ true
        → Ends fuel dto s w (over s' w')
    unfolding Ends
    over-Ends s' w' h = h

    undefined-Ends : Ends fuel dto s w undefined
    unfolding Ends
    undefined-Ends = tt

    -- One more busy answer before the rest of the loop.
    again-Ends :
        (s' : SendSession) (w' : net.State) (r : Negotiated net json read)
        → request_send net json read dto s w ≡ some ((false, s'), w')
        → is_waiting (cancelled_meanwhile (net.sleep w').0 s').session_status ≡ true
        → Ends fuel dto (cancelled_meanwhile (net.sleep w').0 s') (net.sleep w').1 r
        → Ends (suc fuel) dto s w r
    unfolding Ends StaysBusy
    again-Ends s' w' (goes_on s1 w1) e busy h = tt
    again-Ends s' w' (over s1 w1) e busy h = h
    again-Ends s' w' undefined e busy h = tt
    again-Ends s' w' unfinished e busy h = (s', w', e, busy, h)

  same_answer :
      (answer : (Bool × SendSession) × net.State) (accepted : Bool)
      → answer.0.0 ≡ accepted
      → some answer ≡ some ((accepted, answer.0.1), answer.1)
  same_answer answer accepted e = ap (λ (b : Bool). some ((b, answer.0.1), answer.1)) e

  pub negotiate-Ends :
      (fuel : ℕ) (dto : RequestSendDto) (s : SendSession) (w : net.State)
      → Ends fuel dto s w (negotiate net json read fuel dto s w)
  unfolding negotiate declined StaysBusy
  negotiate-Ends zero dto s w = unfold Ends in tt
  negotiate-Ends (suc fuel) dto s w =
      let P = Ends (suc fuel) dto s w in
      option_cases P (request_send net json read dto s w) _ _ (undefined-Ends (suc fuel) dto s w)
        (λ answer e.
          if_cases P answer.0.0 _ _ (λ _. goes_on-Ends (suc fuel) dto s w _ _)
            (λ refused.
              if_cases P (by_sender answer.0.1.session_status) _ _
                (λ gone. over-Ends (suc fuel) dto s w _ _ (by_sender_ended _ gone))
                (λ _.
                  if_keeps P (is_waiting answer.0.1.session_status) _ _
                    (if_cases P _ _ _
                      (λ busy.
                        again-Ends fuel dto s w answer.0.1 answer.1 _
                          (e ∙ same_answer answer false refused) busy (negotiate-Ends fuel dto _ _))
                      (λ _. goes_on-Ends (suc fuel) dto s w _ _))
                    (over-Ends (suc fuel) dto s w _ _ refl))))
