-- ===== src/Connect/Client.antt =====
-- src/core/network/client/http_client.cc: the connection of HttpsClient, and the reference to the TLS
-- session that it holds. What the network does in one call is an argument of the call.
pub mod Tidy
use lan_send.Base.{
  ℕ, ◌+◌, ◌-◌, ◌==◌, Option, none, some, String, Bool, true, false, ◌&&◌, not, if◌then◌else◌, List,
  [], ◌∷◌, ◌≡◌, refl, if_keeps, if_cases, arith, ◌∙◌,
}

pub record HttpsClient : Type 0 where
  -- connection_ is not null
  pub connected : Bool
  pub current_host : String
  pub current_port : ℕ
  -- ssl_session_ is not null
  pub has_session : Bool
  -- references that SSL_get1_session gave, less those that SSL_SESSION_free gave back; `none` behind a
  -- call of SSL_SESSION_free for which no reference was left, which is undefined
  pub references : Option ℕ

-- Which steps of one Connect succeed, and whether SSL_get1_session has a session to give.
pub record Attempt : Type 0 where
  pub hostname_set : Bool
  pub resolved : Bool
  pub reached : Bool
  pub handshaken : Bool
  pub gives_session : Bool

abbrev pub new_client : HttpsClient
new_client = record {
  connected = false;
  current_host = "";
  current_port = 0;
  has_session = false;
  references = some 0;
}

-- connection_.reset, and no host
unfoldable pub cleared : HttpsClient → HttpsClient
cleared c = record c { connected = false; current_host = ""; current_port = 0 }

-- The shutdown may throw.
unfoldable pub disconnect : Bool → HttpsClient → Bool × HttpsClient
unfolding cleared
disconnect throws c = if c.connected then (not throws, cleared c) else (true, c)

-- SSL_get1_session and SSL_SESSION_free on the references.
unfoldable pub retain : Option ℕ → Option ℕ
retain none = none
retain (some n) = some (n + 1)

unfoldable pub release : Option ℕ → Option ℕ
release none = none
release (some n) = if n == 0 then none else some (n - 1)

-- SSL_SESSION_free, if there is a session.
unfoldable pub free_session : HttpsClient → HttpsClient
free_session c =
    if c.has_session then record c { has_session = false; references = release c.references } else c

unfoldable pub take_session : Bool → HttpsClient → HttpsClient
unfolding free_session
take_session given c =
    let c' = free_session c in
    if given then record c' { has_session = true; references = retain c'.references } else c'

unfoldable pub connect : Bool → Attempt → String → ℕ → HttpsClient → Bool × HttpsClient
unfolding disconnect take_session cleared
connect throws a host port c =
    let c' = record (disconnect throws c).1 { connected = true } in
    if a.hostname_set && (a.resolved && (a.reached && a.handshaken))
    then (
      true,
      record (take_session a.gives_session c') { current_host = host; current_port = port },
    )
    else (false, cleared c')

-- The destructor.
unfoldable pub destroy : HttpsClient → HttpsClient
unfolding free_session
destroy c = free_session c
