-- ===== src/Http.antt =====
-- src/core/network/server/http_server.cc, lines 116 to 178: the responses that the handlers build.
-- The status numbers are those of boost::beast::http::status.
use lan_send.Base.{ℕ, String, Bool, false, str_eq}
use lan_send.Model.{What, RequestSendResponseDto}

-- A body: plain text, the text of an exception, or the JSON of the accepted request.
pub data Body : Type 0 where
  text : String → Body
  what : What → Body
  json : RequestSendResponseDto → Body

pub record HttpResponse : Type 0 where
  pub status : ℕ
  pub version : ℕ
  pub keep_alive : Bool
  pub content_type : String
  pub body : Body

-- What a response copies from its request.
pub record RequestLine : Type 0 where
  pub version : ℕ
  pub keep_alive : Bool

abbrev pub respond : ℕ → String → RequestLine → Body → HttpResponse
respond status content_type req body = record {
  status = status;
  version = req.version;
  keep_alive = req.keep_alive;
  content_type = content_type;
  body = body;
}

abbrev pub ok : RequestLine → Body → HttpResponse
ok = respond 200 "application/json"

abbrev pub not_found : RequestLine → Body → HttpResponse
not_found = respond 404 "text/plain"

abbrev pub bad_request : RequestLine → Body → HttpResponse
bad_request = respond 400 "text/plain"

abbrev pub internal_server_error : RequestLine → Body → HttpResponse
internal_server_error = respond 500 "text/plain"

abbrev pub forbidden : RequestLine → Body → HttpResponse
forbidden = respond 403 "text/plain"

abbrev pub method_not_allowed : RequestLine → Body → HttpResponse
method_not_allowed = respond 405 "text/plain"

-- res.body() == text
abbrev pub body_is : String → Body → Bool
body_is s (text t) = str_eq t s
body_is s (what w) = false
body_is s (json r) = false
