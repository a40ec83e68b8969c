-- ===== src/Receive/Cancel.antt =====
-- ReceiveController::onCancelSend and onCancelWait (receive_controller.cc, lines 494 to 586).
use lan_send.Base.{none, some, true, false, ◌&&◌, ◌==◌, not, str_eq, if◌then◌else◌}
use lan_send.Message.{Bytes}
use lan_send.Json.{Codec, read_with}
use lan_send.Model.{What}
use lan_send.Http.{RequestLine, Body, ok, forbidden, bad_request, internal_server_error}
use lan_send.Receive.{ReceiveController, is_working, Outcome, end_session}
use lan_send.Receive.Outcome.{responded}

module _ (json : Codec) where
  unfoldable pub on_cancel_send :
      RequestLine → Bytes → ReceiveController → ReceiveController × Outcome
  on_cancel_send req body c =
      if not (is_working c.session_status)
      then (c, responded (ok req (Body.text "Not receiving")))
      else elim (read_with json.parse json.from_cancel_send body) [
        | none ↦ (c, responded (bad_request req (Body.text "invalid data")))
        | some session_id ↦
            if str_eq session_id c.session_id
            then (end_session false true What.no_text c, responded (ok req (Body.text "")))
            else (
              c,
              responded
                  (internal_server_error req (Body.what (What.invalid_session_id session_id))),
            )
      ]

  unfoldable pub on_cancel_wait :
      RequestLine → Bytes → ReceiveController → ReceiveController × Outcome
  on_cancel_wait req body c =
      if not (is_working c.session_status)
      then (c, responded (ok req (Body.text "Not waiting")))
      else elim (read_with json.parse json.from_cancel_wait body) [
        | none ↦ (c, responded (bad_request req (Body.text "invalid data")))
        | some (ip, port) ↦
            if str_eq ip c.sender_ip && port == c.sender_port
            then (end_session false true What.no_text c, responded (ok req (Body.text "")))
            else (c, responded (forbidden req (Body.text "invalid sender ip or port")))
      ]
