-- ===== src/Server.antt =====
-- src/core/network/server/http_server.cc, lines 274 to 316, and ReceiveController::installRoutes: the
-- dispatch of a request to a handler.
pub mod Connection
pub mod Sender
use lan_send.Base.{String, Option, none, some, Bool, str_eq, if◌then◌else◌, List, [], ◌∷◌}
use lan_send.ApiRoute
use lan_send.Message.{Bytes}
use lan_send.Hasher.{Digest}
use lan_send.Json.{Codec}
use lan_send.Disk.{ChunkIo}
use lan_send.Http.{
  HttpResponse, RequestLine, Body, not_found, method_not_allowed, internal_server_error,
}
use lan_send.Receive.{ReceiveController, Outcome}
use lan_send.Receive.Outcome.{responded, threw}
use lan_send.Receive.Request.{Waiting, on_request_send}
use lan_send.Receive.Chunk.{on_send_chunk}
use lan_send.Receive.Verify.{VerifyIo, on_verify_integrity}
use lan_send.Receive.Cancel.{on_cancel_send}

-- A route of the table, with a handler that works on a state.
pub record RouteInfo (S : Type 0) : Type 0 where
  pub path : String
  pub method : String
  pub handler : RequestLine → Bytes → S → S × Outcome

-- routes_.find
unfoldable pub find_route : {S : Type 0} → String → List (RouteInfo S) → Option (RouteInfo S)
find_route path [] = none
find_route path (r ∷ rs) = if str_eq r.path path then some r else find_route path rs

-- An exception of the handler becomes a response.
unfoldable pub answered : {S : Type 0} → RequestLine → S × Outcome → S × HttpResponse
answered req (s, responded res) = (s, res)
answered req (s, threw e) = (s, internal_server_error req (Body.what e))

unfoldable pub handle_request :
    {S : Type 0}
    → List (RouteInfo S)
    → (method target : String) → RequestLine
    → Bytes
    → S
    → S × HttpResponse
unfolding find_route answered
handle_request routes method target req body s = elim (find_route target routes) [
  | none ↦ (s, not_found req (Body.text "Not Found"))
  | some r ↦
      if str_eq r.method method
      then answered req (r.handler req body s)
      else (s, method_not_allowed req (Body.text "Method Not Allowed"))
]

-- ReceiveController::installRoutes; `waiting` is how the wait for the user comes out, `cancelled` what
-- the user answers when asked to cancel.
unfoldable pub receive_routes :
    Digest → Codec → Waiting → ChunkIo → VerifyIo → Bool → List (RouteInfo ReceiveController)
receive_routes d json waiting io verify_io cancelled =
    record { path = ApiRoute.request_send; method = "POST"; handler = on_request_send json waiting }
    ∷ record {
      path = ApiRoute.send_chunk;
      method = "POST";
      handler = on_send_chunk d json io cancelled;
    }
    ∷ record {
      path = ApiRoute.verify_integrity;
      method = "POST";
      handler = on_verify_integrity d json verify_io cancelled;
    }
    ∷ record { path = ApiRoute.cancel_send; method = "POST"; handler = on_cancel_send json }
    ∷ []
