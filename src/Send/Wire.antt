-- ===== src/Send/Wire.antt =====
-- A sender whose every request reaches the receiver's server.
use lan_send.Base.{String, some, true, false, ◌≡◌, refl, arith}
use lan_send.ApiRoute
use lan_send.Message.{Bytes}
use lan_send.Hasher.{Digest}
use lan_send.Json.{Codec}
use lan_send.Disk.{ChunkIo}
use lan_send.Model.{Feedback}
use lan_send.Http.{RequestLine}
use lan_send.Server.{receive_routes, handle_request, find_route, answered}
use lan_send.Receive.{ReceiveController}
use lan_send.Receive.Chunk.{on_send_chunk}
use lan_send.Receive.Request.{Waiting}
use lan_send.Receive.Verify.{VerifyIo}
use lan_send.Send.{
  SendSession, Network, Reply, Connection, feedback, by_sender, cancelled_meanwhile,
}
use lan_send.Send.Transfer.{ask, take_exchange, take_answer}

-- The user of the sender does not cancel, and every request reaches the receiver's server.
abbrev pub wire : Digest → Codec → Waiting → ChunkIo → VerifyIo → RequestLine → Network
wire d json waiting io verify_io req = record {
  State = ReceiveController;
  connect = λ host port c. (Connection.connected host port, c);
  is_connected = λ c. true;
  exchange = λ route body c.
      let (c', res) =
        handle_request (receive_routes d json waiting io verify_io false) "POST" route req body c in
      (
        record {
          reply = some (record { status = res.status; body = res.body });
          cancelled = false;
        },
        c',
      );
  disconnect = λ c. c;
  sleep = λ c. (false, c);
}

-- An awaited request that is answered 200.
take_exchange-ok :
    (s : SendSession) (r : Reply)
    → by_sender s.session_status ≡ false
    → r.status ≡ 200
    → take_exchange (record { reply = some r; cancelled = false }) s ≡ (true, s)
unfolding take_exchange take_answer cancelled_meanwhile
take_exchange-ok s r h ok = ground (arith, h, ok)

pub ask-ok :
    (net : Network) (route : String) (body : Bytes) (s : SendSession) (w w' : net.State) (r : Reply)
    → by_sender s.session_status ≡ false
    → net.exchange route body w ≡ (record { reply = some r; cancelled = false }, w')
    → r.status ≡ 200
    → ask net route body s w ≡ ((true, s), w')
unfolding ask
ask-ok net route body s w w' r h e ok = rw (ask, h, e, take_exchange-ok s r h ok) refl

pub routed :
    (d : Digest) (json : Codec) (waiting : Waiting) (io : ChunkIo) (verify_io : VerifyIo)
    (req : RequestLine) (body : Bytes) (c : ReceiveController)
    → handle_request
        (receive_routes d json waiting io verify_io false)
        "POST"
        ApiRoute.send_chunk
        req
        body
        c
      ≡ answered req (on_send_chunk d json io false req body c)
unfolding handle_request receive_routes find_route
routed d json waiting io verify_io req body c = refl

pub feedback_kept :
    (f : Feedback) (s : SendSession)
    → ((feedback f s).session_status ≡ s.session_status)
      × ((feedback f s).session_id ≡ s.session_id)
unfolding feedback
feedback_kept f s = ground arith
