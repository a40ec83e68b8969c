-- ===== src/Receive/Request/Declined.antt =====
-- What the user's answer comes to.
use lan_send.Base.{
  ℕ, ◌≤◌, Option, none, some, true, ◌≡◌, ◌≢◌, ◌⊎◌, inl, inr, List, [], ◌∷◌, ◌++◌, arith, ◌∙◌,
  Option-cases, Bool-cases, false, refl,
}
use lan_send.Model.{FileDto}
use lan_send.Http.{Body, forbidden}
use lan_send.Receive.{ReceiveController, Outcome, is_working, reset_to_idle}
use lan_send.Receive.Request.{
  Pending, Poll, Entropy, poll_confirmation, wait_for_user_confirmation, finish_request,
  timeout_seconds,
}

poll_result :
    (c : ReceiveController) (poll : Poll) (files : List FileDto) (r : Option (List FileDto))
    → poll_confirmation c poll files ≡ some r
    → r ≡ none
unfolding poll_confirmation
poll_result c poll files r h = ground arith

wait_result :
    (rounds : List (ReceiveController × Poll)) (files : List FileDto) (r : Option (List FileDto))
    → wait_for_user_confirmation true rounds files ≡ some r
    → r ≡ none
unfolding wait_for_user_confirmation
wait_result [] files r h = cc
wait_result ((c, poll) ∷ rounds) files r h = elim (Option-cases (poll_confirmation c poll files)) [
  | inl e ↦ wait_result rounds files r (rw (e, wait_for_user_confirmation) at h)
  | inr (r', e) ↦ poll_result c poll files r (e ∙ (rw (e, wait_for_user_confirmation) at h))
]

-- Under a wait condition a request is answered 403, whatever the user answers in whatever round, also
-- with the names of all files: the receiver is reset, or, where it is not in a session any more, left
-- as it is.
pub confirmed_request_refused :
    (rounds : List (ReceiveController × Poll)) (p : Pending) (r : Option (List FileDto))
    (e : Entropy) (c : ReceiveController)
    → wait_for_user_confirmation true rounds p.dto.files ≡ some r
    → ((is_working c.session_status ≡ true)
        × (finish_request e p r c
            ≡ (reset_to_idle c, Outcome.responded (forbidden p.req (Body.text "declined")))))
      ⊎ ((is_working c.session_status ≡ false)
          × (finish_request e p r c
              ≡ (c, Outcome.responded (forbidden p.req (Body.text "sender cancelled")))))
unfolding finish_request
confirmed_request_refused rounds p r e c h =
    let refused = wait_result rounds p.dto.files r h in
    elim (Bool-cases (is_working c.session_status)) [
      | inl on ↦ inl (on, rw (finish_request, refused, on) refl)
      | inr off ↦ inr (off, rw (finish_request, off) refl)
    ]

-- The wait ends by the round in which the time is up, at the latest.
pub wait_ends :
    (before after : List (ReceiveController × Poll)) (c : ReceiveController) (seconds : ℕ)
    (files : List FileDto)
    → timeout_seconds ≤ seconds
    → wait_for_user_confirmation true (before ++ (c, Poll.no_answer seconds) ∷ after) files ≢ none
unfolding wait_for_user_confirmation poll_confirmation
wait_ends [] after c seconds files h = ground arith
wait_ends ((c', poll) ∷ before) after c seconds files h =
    ground (arith, wait_ends before after c seconds files h)
