-- ===== src/Tests/Serving.antt =====
-- Connections to the server of the receiver.
use lan_send.Base.{none, false, ◌≡◌, ◌≢◌, refl, [], ◌∷◌}
use lan_send.Json.{Codec}
use lan_send.Receive.{ReceiveController, notify_sender_lost}
use lan_send.Receive.Request.{Begun, Pending, begin_request, open_request}
use lan_send.Tests.Toy.{
  identity_digest, session_codec, request_line, working_io, reading_io, idle_controller, offer,
  declined,
}
use lan_send.Server.Connection.{ErrorCode, Received, Turn, Endpoint, round}
use lan_send.Server.Sender.{begin_request-round}

abbrev codec : Codec
codec = session_codec (7 ∷ 8 ∷ 9 ∷ []) 2

abbrev turn : Received → Turn
turn r = record {
  received = r;
  write_error = none;
  waiting = declined;
  io = working_io;
  verify_io = reading_io;
  cancelled = false;
}

abbrev peer : Endpoint
peer = record { ip = "10.0.0.7"; port = 51000 }

abbrev idle : ReceiveController
idle = idle_controller []

abbrev asked : Pending
asked = record { req = request_line; dto = offer }

abbrev opened : ReceiveController
opened = open_request offer idle

opens : begin_request codec request_line (0 ∷ 0 ∷ []) idle ≡ (opened, Begun.waits asked)
unfolding begin_request
opens = refl

begin_request-round_example :
    (peer.port ≢ offer.device_info.port
      → (round identity_digest codec peer (turn (Received.lost ErrorCode.closing)) opened).0
        ≡ opened)
    × (peer.ip ≢ offer.device_info.ip_address
        → (round identity_digest codec peer (turn (Received.lost ErrorCode.closing)) opened).0
          ≡ opened)
    × (peer.ip ≡ offer.device_info.ip_address
        → peer.port ≡ offer.device_info.port
        → (round identity_digest codec peer (turn (Received.lost ErrorCode.closing)) opened).0
          ≡ notify_sender_lost opened)
begin_request-round_example =
    begin_request-round identity_digest codec request_line (0 ∷ 0 ∷ []) idle opened asked peer
      (turn (Received.lost ErrorCode.closing)) ErrorCode.closing opens refl
