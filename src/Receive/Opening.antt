-- ===== src/Receive/Opening.antt =====
-- ReceiveController::onRequestSend and the invariant, on both sides of its wait.
use lan_send.Base.{
  ℕ, ◌+◌, String, ◌<>◌, Option, true, false, ◌≡◌, refl, sym, ◌∙◌, List, [], ◌∷◌, is_empty, if_keeps,
  if_cases, option_cases, Assoc, assign, arith, to_string, starts_with_digit-to_string,
  starts_with_digit, not, false≢true,
}
use lan_send.Message.{Bytes}
use lan_send.Json.{Codec, read_with}
use lan_send.Model.{Feedback, FileDto, RequestSendDto}
use lan_send.Http.{RequestLine}
use lan_send.Receive.{ReceiveSessionStatus, ReceiveController, feedback, is_working}
use lan_send.Receive.Session.{
  DistinctChunks, DistinctChunks-assign, IsConsistent, feedback-IsConsistent,
  reset_to_idle-IsConsistent,
}
use lan_send.Receive.Handlers.{After, pair-After, working_of, not_idle}
use lan_send.Receive.Request.{
  Entropy, Pending, open_request, begin_request, finish_request, register_files, file_context,
  file_token,
}

feedback_status :
    (f : Feedback) (c : ReceiveController) → (feedback f c).session_status ≡ c.session_status
unfolding feedback
feedback_status f c =
    if_keeps (λ (x : ReceiveController). x.session_status ≡ c.session_status) c.has_callback _ _
      refl refl

addressed :
    (c : ReceiveController) (ip : String) (port : ℕ)
    → c.session_status ≡ ReceiveSessionStatus.working
    → IsConsistent c
    → IsConsistent (record c { sender_ip = ip; sender_port = port })
addressed c ip port w h = record {
  idle_cleared = λ i. absurd (not_idle c w i);
  files_have_id = h.files_have_id;
  distinct = h.distinct;
}

idle_of :
    (c : ReceiveController)
    → is_working c.session_status ≡ false
    → c.session_status ≡ ReceiveSessionStatus.idle
idle_of c h = ground arith

open_request-IsConsistent :
    (dto : RequestSendDto) (c : ReceiveController)
    → is_working c.session_status ≡ false
    → IsConsistent c
    → IsConsistent (open_request dto c)
unfolding open_request
open_request-IsConsistent dto c i h =
    addressed _ _ _ (feedback_status _ (record c { session_status = ReceiveSessionStatus.working }))
      (feedback-IsConsistent _ (record c { session_status = ReceiveSessionStatus.working })
        (record {
          idle_cleared = λ e. absurd (cc);
          files_have_id = h.files_have_id;
          distinct = h.distinct;
        }))

pub begin_request-After :
    (json : Codec) (req : RequestLine) (body : Bytes) (c : ReceiveController)
    → IsConsistent c
    → After (begin_request json req body c)
unfolding begin_request
begin_request-After json req body c h =
    option_cases After (read_with json.parse json.from_request_send body) _ _ (pair-After c _ h)
      (λ dto _.
        if_cases After (is_working c.session_status) _ _ (λ _. pair-After c _ h)
          (λ i. pair-After _ _ (open_request-IsConsistent dto c i h)))

-- The state while files are registered: a session with an id.
abbrev InSession : ReceiveController → Type 0
InSession c =
    (c.session_status ≡ ReceiveSessionStatus.working)
    × (is_empty c.session_id ≡ false)
    × DistinctChunks c.received_files

InSession-IsConsistent : (c : ReceiveController) → InSession c → IsConsistent c
InSession-IsConsistent c h = record {
  idle_cleared = λ i. absurd (not_idle c h.0 i);
  files_have_id = λ e. absurd (false≢true (sym h.1 ∙ e));
  distinct = h.2;
}

register_files-InSession :
    (e : Entropy) (i : ℕ) (files : List FileDto) (tokens : Assoc String) (c : ReceiveController)
    → InSession c
    → InSession (register_files e i files tokens c).0
unfolding register_files
register_files-InSession e i [] tokens c h = h
register_files-InSession e i (f ∷ fs) tokens c h =
    register_files-InSession e (i + 1) fs (assign f.file_id (file_token e i f) tokens) _ (
      h.0,
      h.1,
      DistinctChunks-assign f.file_id (file_context e i c.save_dir f) c.received_files
          (unfold file_context in tt) h.2,
    )

digit_nonempty : (s : String) → starts_with_digit s ≡ true → is_empty s ≡ false
digit_nonempty String.[] h = cc
digit_nonempty (String.◌∷◌ c s) h = refl

pub finish_request-After :
    (e : Entropy) (p : Pending) (accepted : Option (List FileDto)) (c : ReceiveController)
    → IsConsistent c
    → After (finish_request e p accepted c)
unfolding finish_request
finish_request-After e p accepted c h =
    if_cases After (not (is_working c.session_status)) _ _ (λ _. pair-After c _ h)
      (λ w.
        option_cases After accepted _ _ (pair-After _ _ (reset_to_idle-IsConsistent c)) (λ files _.
          pair-After _ _ (
            InSession-IsConsistent _ (
              register_files-InSession e 0 files []
                (record c { session_id = to_string e.now <> e.session_uuid })
                (
                  working_of c w,
                  digit_nonempty _ (starts_with_digit-to_string e.now e.session_uuid),
                  h.distinct,
                )))))
