-- ===== src/Server/Connection.antt =====
-- HttpServer::handleConnection (src/core/network/server/http_server.cc): the requests of one
-- connection, one after the other, with what the network does, and how a wait for the user comes
-- out, as arguments of each round.
use lan_send.Base.{ℕ, String, Option, none, some, Bool, ◌==◌, str_eq, if◌then◌else◌, List, [], ◌∷◌}
use lan_send.Message.{Bytes}
use lan_send.Hasher.{Digest}
use lan_send.Json.{Codec}
use lan_send.Disk.{ChunkIo}
use lan_send.Http.{RequestLine}
use lan_send.Receive.{ReceiveController, is_working, notify_sender_lost}
use lan_send.Receive.Request.{Waiting}
use lan_send.Receive.Verify.{VerifyIo}
use lan_send.Server.{handle_request, receive_routes}

-- The code of a boost::system::system_error: `closing` stands for timeout, eof, operation_aborted and
-- end_of_stream.
pub data ErrorCode : Type 0 where
  closing other : ErrorCode

-- What async_read gives.
pub data Received : Type 0 where
  request : (method target : String) → RequestLine → Bytes → Received
  lost : ErrorCode → Received

-- One round: what is read, whether the response can be written, and what the disk and the user do
-- during the handler.
pub record Turn : Type 0 where
  pub received : Received
  pub write_error : Option ErrorCode
  pub waiting : Waiting
  pub io : ChunkIo
  pub verify_io : VerifyIo
  pub cancelled : Bool

-- Where the loop stands after a round: it goes on, it is left, or an exception leaves it.
pub data Ending : Type 0 where
  goes_on closed failed : Ending

-- socket.remote_endpoint()
pub record Endpoint : Type 0 where
  pub ip : String
  pub port : ℕ

unfoldable pub ending : ErrorCode → Ending
ending closing = Ending.closed
ending other = Ending.failed

-- The receiver is told that the sender is lost, if it is in a session with this endpoint.
unfoldable pub sender_lost : Endpoint → ReceiveController → ReceiveController
sender_lost peer c =
    if is_working c.session_status
    then if str_eq c.sender_ip peer.ip
      then if c.sender_port == peer.port then notify_sender_lost c else c
      else c
    else c

module _ (d : Digest) (json : Codec) where
  unfoldable pub round : Endpoint → Turn → ReceiveController → ReceiveController × Ending
  unfolding sender_lost ending
  round peer t c = elim t.received [
    | Received.lost code ↦ (sender_lost peer c, ending code)
    | Received.request method target req body ↦
        let routes = receive_routes d json t.waiting t.io t.verify_io t.cancelled in
        let c' = (handle_request routes method target req body c).0 in
        elim t.write_error [
          | some code ↦ (sender_lost peer c', ending code)
          | none ↦ (c', if req.keep_alive then Ending.goes_on else Ending.closed)
        ]
  ]

  -- The loop, over the rounds that the network has in store.
  unfoldable pub serve : Endpoint → List Turn → ReceiveController → ReceiveController × Ending
  unfolding round
  serve peer [] c = (c, Ending.goes_on)
  serve peer (t ∷ ts) c =
      let r = round peer t c in
      let rest = serve peer ts r.0 in
      elim r.1 [ Ending.goes_on ↦ rest | Ending.closed ↦ r | Ending.failed ↦ r ]

  -- A connection whose handshake fails is left at once.
  unfoldable pub handle_connection :
      Endpoint → Bool → List Turn → ReceiveController → ReceiveController × Ending
  unfolding serve
  handle_connection peer handshake ts c = if handshake then serve peer ts c else (c, Ending.failed)
