-- ===== src/Server/Sender.antt =====
-- HttpServer::handleConnection and onRequestSend: which connection is the sender's.
use lan_send.Base.{
  String, eq_iff, ℕ, subst, true, false, ◌==◌, ◌≡◌, ◌≢◌, refl, ap, sym, ◌∙◌, str_eq, eq_refl,
  if_true, if_false, if_keeps, option_cases, arith,
}
use lan_send.Message.{Bytes}
use lan_send.Hasher.{Digest}
use lan_send.Json.{Codec, read_with}
use lan_send.Model.{Feedback, DeviceInfo}
use lan_send.Http.{RequestLine}
use lan_send.Receive.{
  ReceiveSessionStatus, ReceiveController, is_working, notify_sender_lost, feedback,
}
use lan_send.Receive.Request.{Begun, Pending, begin_request, open_request}
use lan_send.Server.Connection.{ErrorCode, Received, Turn, Endpoint, sender_lost, round}

feedback_status :
    (f : Feedback) (c : ReceiveController) → (feedback f c).session_status ≡ c.session_status
unfolding feedback
feedback_status f c =
    if_keeps (λ (x : ReceiveController). x.session_status ≡ c.session_status) c.has_callback _ _
      refl refl

-- The session that a request has opened.
record Opened (device : DeviceInfo) (c : ReceiveController) : Type 0 where
  working : c.session_status ≡ ReceiveSessionStatus.working
  ip : c.sender_ip ≡ device.ip_address
  port : c.sender_port ≡ device.port

OpenedBy : ReceiveController × Begun → Type 0
OpenedBy (c, Begun.refused res) = Unit {0}
OpenedBy (c, Begun.waits p) = Opened p.dto.device_info c

module _ (json : Codec) where
  begin_request-OpenedBy :
      (req : RequestLine) (body : Bytes) (c : ReceiveController)
      → OpenedBy (begin_request json req body c)
  unfolding begin_request open_request OpenedBy
  begin_request-OpenedBy req body c =
      option_cases OpenedBy (read_with json.parse json.from_request_send body) _ _ tt (λ dto _.
        if_keeps OpenedBy (is_working c.session_status) _ _ tt (record {
          working = feedback_status _ (record c { session_status = ReceiveSessionStatus.working });
          ip = refl;
          port = refl;
        }))

  begin_request-Opened :
      (req : RequestLine) (body : Bytes) (c c' : ReceiveController) (p : Pending)
      → begin_request json req body c ≡ (c', Begun.waits p)
      → Opened p.dto.device_info c'
  unfolding OpenedBy
  begin_request-Opened req body c c' p e = subst OpenedBy e (begin_request-OpenedBy req body c)

other_port : (a b : ℕ) → b ≢ a → (a == b) ≡ false
other_port a b h = ground arith

same_port : (a b : ℕ) → b ≡ a → (a == b) ≡ true
same_port a b h = ground arith

sender_lost_elsewhere :
    (peer : Endpoint) (c : ReceiveController)
    → (c.sender_port == peer.port) ≡ false
    → sender_lost peer c ≡ c
unfolding sender_lost
sender_lost_elsewhere peer c h =
    if_keeps (λ (x : ReceiveController). x ≡ c) (is_working c.session_status) _ _
      (if_keeps (λ (x : ReceiveController). x ≡ c) (str_eq c.sender_ip peer.ip) _ _
        (if_false (c.sender_port == peer.port) _ _ h) refl)
      refl

other_text : (a b : String) → a ≢ b → str_eq a b ≡ false
other_text a b h = ground (arith, eq_iff a b)

sender_lost_other_host :
    (peer : Endpoint) (c : ReceiveController)
    → str_eq c.sender_ip peer.ip ≡ false
    → sender_lost peer c ≡ c
unfolding sender_lost
sender_lost_other_host peer c h =
    if_keeps (λ (x : ReceiveController). x ≡ c) (is_working c.session_status) _ _
      (if_false (str_eq c.sender_ip peer.ip) _ _ h) refl

sender_lost_here :
    (peer : Endpoint) (c : ReceiveController)
    → is_working c.session_status ≡ true
    → str_eq c.sender_ip peer.ip ≡ true
    → (c.sender_port == peer.port) ≡ true
    → sender_lost peer c ≡ notify_sender_lost c
unfolding sender_lost
sender_lost_here peer c w i h =
    if_true (is_working c.session_status) _ _ w
    ∙ if_true (str_eq c.sender_ip peer.ip) _ _ i
    ∙ if_true (c.sender_port == peer.port) _ _ h

module _ (d : Digest) (json : Codec) where
  lost_round :
      (peer : Endpoint) (t : Turn) (code : ErrorCode) (c : ReceiveController)
      → t.received ≡ Received.lost code
      → (round d json peer t c).0 ≡ sender_lost peer c
  unfolding round
  lost_round peer t code c e = rw (round, e) refl

  -- A request to send has put the receiver into a session that waits for the user, and then a
  -- connection breaks while the server waits for its next request. The receiver is told that its sender
  -- is lost where the endpoint of that connection has the address and the port that the request
  -- announced as those of its own connection; where either differs, the receiver is left as it is.
  pub begin_request-round :
      (req : RequestLine) (body : Bytes) (c c' : ReceiveController) (p : Pending) (peer : Endpoint)
      (t : Turn) (code : ErrorCode)
      → begin_request json req body c ≡ (c', Begun.waits p)
      → t.received ≡ Received.lost code
      → (peer.port ≢ p.dto.device_info.port → (round d json peer t c').0 ≡ c')
        × (peer.ip ≢ p.dto.device_info.ip_address → (round d json peer t c').0 ≡ c')
        × (peer.ip ≡ p.dto.device_info.ip_address
            → peer.port ≡ p.dto.device_info.port
            → (round d json peer t c').0 ≡ notify_sender_lost c')
  begin_request-round req body c c' p peer t code e l =
      let o = begin_request-Opened json req body c c' p e in
      let lost = lost_round peer t code c' l in
      (
        λ apart.
            let differs = other_port c'.sender_port peer.port (λ h. apart (h ∙ o.port)) in
            lost ∙ sender_lost_elsewhere peer c' differs,
        λ apart.
            lost
            ∙ sender_lost_other_host peer c'
                (other_text c'.sender_ip peer.ip (λ h. apart (sym h ∙ o.ip))),
        λ ip port.
            lost
            ∙ sender_lost_here peer c' (ap is_working o.working)
                (ap (λ x. str_eq x peer.ip) (o.ip ∙ sym ip) ∙ eq_refl peer.ip)
                (same_port c'.sender_port peer.port (port ∙ sym o.port)),
      )
