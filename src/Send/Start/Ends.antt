-- ===== src/Send/Start/Ends.antt =====
-- How SendSession::Start ends.
use lan_send.Base.{
  ℕ, String, Option, none, some, Bool, true, false, ◌≡◌, refl, ◌∙◌, ap, ◌==◌, ◌||◌, if_cases, List,
  [], ◌∷◌, map, ◌⊎◌, is_empty, inl, inr,
}
use lan_send.Hasher.{Digest}
use lan_send.Json.{Codec}
use lan_send.Naming.{Disk}
use lan_send.Model.{
  SessionStatus, Feedback, DeviceInfo, FileDto, RequestSendDto, RequestSendResponseDto,
}
use lan_send.Http.{Body}
use lan_send.Send.{SendSession, Network, Connection, feedback, is_cancelled}
use lan_send.Send.Prepare.{FileAccess, prepare_files}
use lan_send.Send.Transfer.{send_file}
use lan_send.Send.Start.{
  sort_by_size, is_failed, negotiate, Negotiated, send_files, send_all, start,
}
use lan_send.Send.Start.Negotiated.{goes_on, over, undefined, unfinished}
use lan_send.Send.Wire.{feedback_kept}
use lan_send.Send.Start.Negotiation.{has_ended, stopped_ended, StaysBusy, Ends, negotiate-Ends}

connection_cases :
    (c : Connection)
    → (c ≡ Connection.refused) ⊎ ((ip : String) × (port : ℕ) × (c ≡ Connection.connected ip port))
connection_cases Connection.refused = inl refl
connection_cases (Connection.connected ip port) = inr (ip, port, refl)

-- The request that Start sends over a connection.
abbrev pub request_over : DeviceInfo → List FileDto → String → ℕ → RequestSendDto
request_over local files ip port = record {
  device_info = record local { ip_address = ip; port = port };
  files = files;
}

module _ (net : Network) (json : Codec) (read : Body → Option RequestSendResponseDto) where
  module _ (d : Digest) (disk : Disk) where
    FilesEnd : (Bool × SendSession) × net.State → Type 0
    FilesEnd r = r.0.0 ≡ false → has_ended r.0.1.session_status ≡ true

    send_files-FilesEnd :
        (files : List (String × ℕ)) (s : SendSession) (w : net.State)
        → FilesEnd (send_files net json read d disk files s w)
    unfolding send_files FilesEnd
    send_files-FilesEnd [] s w = λ e. cc
    send_files-FilesEnd (f ∷ files) s w =
        let sent = send_file net json d disk f.0 s w in
        if_cases FilesEnd (is_cancelled sent.0.session_status || is_failed sent.0.session_status) _
          _ (λ stopped _. stopped_ended sent.0.session_status stopped)
          (λ _. send_files-FilesEnd files sent.0 sent.1)

    Ended : SendSession × net.State → Type 0
    Ended r = has_ended r.0.session_status ≡ true

    completed-Ended :
        (f : Feedback) (s : SendSession) (w : net.State)
        → Ended (feedback f (record s { session_status = SessionStatus.completed }), w)
    unfolding Ended
    completed-Ended f s w =
        ap has_ended (feedback_kept f (record s { session_status = SessionStatus.completed })).0

    files-Ended :
        (r : (Bool × SendSession) × net.State) → FilesEnd r → r.0.0 ≡ false → Ended (r.0.1, r.1)
    unfolding Ended FilesEnd
    files-Ended r h e = h e

    send_all-Ended : (s : SendSession) (w : net.State) → Ended (send_all net json read d disk s w)
    unfolding send_all
    send_all-Ended s w =
        let accepted = feedback (Feedback.recipient_accepted s.receiver_device_id) s in
        let sending = record accepted { session_status = SessionStatus.sending } in
        let files = sort_by_size (map (λ f. (f.0, f.1.file_size)) sending.transfer_files) in
        let run = send_files net json read d disk files sending w in
        if_cases Ended run.0.0 _ _ (λ _. completed-Ended _ run.0.1 run.1)
          (files-Ended run (send_files-FilesEnd files sending w))

    -- The rest of Start, behind the negotiation.
    unfoldable pub after_negotiation : Negotiated net json read → Option (SendSession × net.State)
    after_negotiation (goes_on s w) = some (send_all net json read d disk s w)
    after_negotiation (over s w) = some (s, w)
    after_negotiation undefined = none
    after_negotiation unfinished = none

    -- The session is at an end; or the receiver assigned a token to a file that was not offered, which
    -- is undefined behaviour; or the receiver stayed busy for as long as the fuel lasted.
    pub Finishes :
        ℕ → RequestSendDto → SendSession → net.State → Option (SendSession × net.State) → Type 0
    Finishes fuel dto s w result =
        ((s' : SendSession) × (w' : net.State) × (result ≡ some (s', w'))
          × (has_ended s'.session_status ≡ true))
        ⊎ ((negotiate net json read fuel dto s w ≡ undefined)
            ⊎ StaysBusy net json read fuel dto s w)

    after_negotiation-Finishes :
        (fuel : ℕ) (dto : RequestSendDto) (s : SendSession) (w : net.State)
        (r : Negotiated net json read)
        → negotiate net json read fuel dto s w ≡ r
        → Ends net json read fuel dto s w r
        → Finishes fuel dto s w (after_negotiation r)
    unfolding Ends Finishes Ended after_negotiation
    after_negotiation-Finishes fuel dto s w (goes_on s' w') e h =
        let r = send_all net json read d disk s' w' in inl (r.0, r.1, refl, send_all-Ended s' w')
    after_negotiation-Finishes fuel dto s w (over s' w') e h = inl (s', w', refl, h)
    after_negotiation-Finishes fuel dto s w undefined e h = inr (inl e)
    after_negotiation-Finishes fuel dto s w unfinished e h = inr (inr h)

    refused-Ended :
        (s : SendSession) (w : net.State)
        → Ended (
          record (feedback Feedback.network_error s) { session_status = SessionStatus.failed },
          w,
        )
    unfolding Ended
    refused-Ended s w = refl

    module _ (uuid : ℕ → String) (access : FileAccess) (fuel : ℕ) (local : DeviceInfo)
        (file_paths : List String) (host : String) (port : ℕ) (s : SendSession)
        (w : net.State) where
      abbrev run : Option (SendSession × net.State)
      run = start net json read d disk uuid access fuel local file_paths host port s w

      start-connected :
          (f : FileDto) (fs : List FileDto) (s1 : SendSession) (ip : String) (local_port : ℕ)
          → prepare_files d uuid access disk 0 file_paths s ≡ some (f ∷ fs, s1)
          → (is_empty host || port == 0) ≡ false
          → (net.connect host port w).0 ≡ Connection.connected ip local_port
          → run
            ≡ after_negotiation (
                negotiate net json read fuel
                  (request_over local (f ∷ fs) ip local_port)
                  (record s1 { session_status = SessionStatus.waiting })
                  (net.connect host port w).1)
      unfolding start after_negotiation
      start-connected f fs s1 ip local_port prepared valid up = rw (start, prepared, valid, up) refl

      start-refused :
          (f : FileDto) (fs : List FileDto) (s1 : SendSession)
          → prepare_files d uuid access disk 0 file_paths s ≡ some (f ∷ fs, s1)
          → (is_empty host || port == 0) ≡ false
          → (net.connect host port w).0 ≡ Connection.refused
          → run
            ≡ some (
              record (feedback Feedback.network_error s1) { session_status = SessionStatus.failed },
              (net.connect host port w).1,
            )
      unfolding start
      start-refused f fs s1 prepared valid down = rw (start, prepared, valid, down) refl

      -- A session that has a file to send and an address is at an end when Start is through: it is
      -- completed, failed, declined or cancelled. The exceptions are a receiver that assigned a token
      -- to a file which was not offered, and one that was busy in each of the rounds that the fuel
      -- allowed; both were connected.
      pub start-ends :
          (f : FileDto) (fs : List FileDto) (s1 : SendSession)
          → prepare_files d uuid access disk 0 file_paths s ≡ some (f ∷ fs, s1)
          → (is_empty host || port == 0) ≡ false
          → ((s' : SendSession) × (w' : net.State) × (start net json read d disk uuid access fuel
                  local file_paths host port s w
                ≡ some (s', w'))
              × (has_ended s'.session_status ≡ true))
            ⊎ ((ip : String) × (local_port : ℕ) × ((net.connect host port w).0
                  ≡ Connection.connected ip local_port)
                × ((negotiate net json read fuel
                        (request_over local (f ∷ fs) ip local_port)
                        (record s1 { session_status = SessionStatus.waiting })
                        (net.connect host port w).1
                      ≡ undefined)
                    ⊎ StaysBusy net json read fuel
                        (request_over local (f ∷ fs) ip local_port)
                        (record s1 { session_status = SessionStatus.waiting })
                        (net.connect host port w).1))
      unfolding Finishes
      start-ends f fs s1 prepared valid = elim (connection_cases (net.connect host port w).0) [
        | inl down ↦ inl (_, _, start-refused f fs s1 prepared valid down, refl)
        | inr (ip, local_port, up) ↦
            let dto = request_over local (f ∷ fs) ip local_port in
            let waiting = record s1 { session_status = SessionStatus.waiting } in
            let w1 = (net.connect host port w).1 in
            elim (after_negotiation-Finishes fuel dto waiting w1
              (negotiate net json read fuel dto waiting w1) refl
              (negotiate-Ends net json read fuel dto waiting w1)) [
                | inl (s', w', e, over_) ↦
                    inl (s', w', start-connected f fs s1 ip local_port prepared valid up ∙ e, over_)
                | inr other ↦ inr (ip, local_port, up, other)
              ]
      ]
