-- ===== src/Send/Start.antt =====
-- SendSession::requestSend and Start (send_session.cc, lines 107 to 312).
pub mod Negotiation
pub mod Ends
pub mod Order
use lan_send.Base.{
  ℕ, zero, suc, String, Option, none, some, Bool, true, false, ◌==◌, ◌||◌, leb, if◌then◌else◌,
  Assoc, lookup, assign, List, [], ◌∷◌, is_nil, is_empty, map,
}
use lan_send.Hasher.{Digest}
use lan_send.Json.{Codec}
use lan_send.Naming.{Disk}
use lan_send.Model.{
  SessionStatus, Feedback, What, DeviceInfo, RequestSendDto, RequestSendResponseDto,
}
use lan_send.Http.{Body, body_is}
use lan_send.ApiRoute
use lan_send.Send.{
  SendSession, TransferFileInfo, Network, Reply, Connection, feedback, by_sender, is_cancelled,
  cancelled_meanwhile,
}
use lan_send.Send.Prepare.{FileAccess, prepare_files}
use lan_send.Send.Transfer.{send_file}

-- The tokens of the response; `none` where `erase(end())` is undefined behaviour, for a file that
-- was not offered.
unfoldable pub assign_tokens :
    List (String × String) → Assoc TransferFileInfo → Option (Assoc TransferFileInfo)
assign_tokens [] files = some files
assign_tokens ((file_id, token) ∷ tokens) files = elim (lookup file_id files) [
  | none ↦ none
  | some info ↦ assign_tokens tokens (assign file_id (record info { file_token = token }) files)
]

-- What requestSend makes of the response; the outer `none` is undefined behaviour.
unfoldable pub read_reply :
    (Body → Option RequestSendResponseDto) → Reply → SendSession → Option (Bool × SendSession)
unfolding assign_tokens
read_reply read r s =
    if r.status == 200
    then elim (read r.body) [
      | none ↦ some (false, record s { session_status = SessionStatus.failed })
      | some dto ↦
          if is_nil dto.file_tokens
          then some (false, record s { session_status = SessionStatus.declined })
          else elim (assign_tokens dto.file_tokens s.transfer_files) [
            | none ↦ none
            | some files ↦ some (
              true,
              record s {
                session_id = dto.session_id;
                session_status = SessionStatus.sending;
                transfer_files = files;
              },
            )
          ]
    ]
    else if r.status == 403
    then (if body_is "receiver busy" r.body
        then some (false, record s { session_status = SessionStatus.waiting })
        else if body_is "declined" r.body
        then some (false, record s { session_status = SessionStatus.declined })
        else some (false, s))
    else some (false, record s { session_status = SessionStatus.failed })

-- The insertion sort by size; std::sort leaves the order of equal sizes open.
insert_by_size : String × ℕ → List (String × ℕ) → List (String × ℕ)
insert_by_size x [] = x ∷ []
insert_by_size x (y ∷ ys) =
    let rest = insert_by_size x ys in if leb x.1 y.1 then x ∷ y ∷ ys else y ∷ rest

unfoldable pub sort_by_size : List (String × ℕ) → List (String × ℕ)
unfolding insert_by_size
sort_by_size [] = []
sort_by_size (x ∷ xs) = insert_by_size x (sort_by_size xs)

abbrev pub is_waiting : SessionStatus → Bool
is_waiting SessionStatus.waiting = true
is_waiting _ = false

abbrev pub is_failed : SessionStatus → Bool
is_failed SessionStatus.failed = true
is_failed _ = false

module _ (net : Network) (json : Codec) (read : Body → Option RequestSendResponseDto) where
  unfoldable pub request_send :
      RequestSendDto → SendSession → net.State → Option ((Bool × SendSession) × net.State)
  unfolding read_reply
  request_send dto s w =
      let (x, w') = net.exchange ApiRoute.request_send (json.dump (json.to_request_send dto)) w in
      let s' = cancelled_meanwhile x.cancelled s in
      elim x.reply [
        | none ↦ some ((false, record s' { session_status = SessionStatus.failed }), w')
        | some r ↦
            if by_sender s'.session_status
            then some ((false, s'), w')
            else elim (read_reply read r s') [ none ↦ none | some answer ↦ some (answer, w') ]
      ]

  -- How the do-while loop of Start ends: it goes on to the files, or the session is over. The fuel
  -- bounds the retries, `unfinished` means that it ran out; `undefined` is undefined behaviour.
  pub data Negotiated : Type 0 where
    goes_on over : SendSession → net.State → Negotiated
    undefined unfinished : Negotiated

  -- One refusal that is no cancellation and no busy receiver.
  unfoldable pub declined : SendSession → net.State → Negotiated
  declined s w =
      over
        (record (feedback (Feedback.recipient_declined s.receiver_device_id) s) {
          session_status = SessionStatus.declined;
        })
        (net.disconnect w)

  -- A `continue` goes to the condition of the loop.
  unfoldable pub negotiate : ℕ → RequestSendDto → SendSession → net.State → Negotiated
  unfolding request_send declined
  negotiate zero dto s w = unfinished
  negotiate (suc fuel) dto s w = elim (request_send dto s w) [
    | none ↦ undefined
    | some ((accepted, s'), w') ↦
        let (cancelled, slept) = net.sleep w' in
        let woken = cancelled_meanwhile cancelled s' in
        let again = negotiate fuel dto woken slept in
        if accepted
        then goes_on s' w'
        else if by_sender s'.session_status
        then over s' w'
        else if is_waiting s'.session_status
        then (if is_waiting woken.session_status then again else goes_on woken slept)
        else declined s' w'
  ]

  module _ (d : Digest) (disk : Disk) where
    -- The loop over the files, in order of increasing size: false where it returned early.
    unfoldable pub send_files :
        List (String × ℕ) → SendSession → net.State → (Bool × SendSession) × net.State
    send_files [] s w = ((true, s), w)
    send_files ((file_id, size) ∷ files) s w =
        let (s', w') = send_file net json d disk file_id s w in
        let later = send_files files s' w' in
        if is_cancelled s'.session_status || is_failed s'.session_status
        then ((false, s'), w')
        else later

    -- After the request was accepted.
    unfoldable pub send_all : SendSession → net.State → SendSession × net.State
    unfolding send_files sort_by_size
    send_all s w =
        let accepted = feedback (Feedback.recipient_accepted s.receiver_device_id) s in
        let sending = record accepted { session_status = SessionStatus.sending } in
        let ((all, s'), w') =
          send_files (sort_by_size (map (λ f. (f.0, f.1.file_size)) sending.transfer_files)) sending
            w in
        if all
        then (
          feedback (Feedback.send_session_ended s'.session_id "" true false What.no_text)
              (record s' { session_status = SessionStatus.completed }),
          w',
        )
        else (s', w')

    -- The result of Start; `none` is undefined behaviour, or a throw of prepareFiles outside the try
    -- block, or that the fuel ran out.
    unfoldable pub start :
        (uuid : ℕ → String) (access : FileAccess) (fuel : ℕ) (local : DeviceInfo)
        (file_paths : List String) (host : String) (port : ℕ)
        → SendSession
        → net.State
        → Option (SendSession × net.State)
    unfolding negotiate send_all
    start uuid access fuel local file_paths host port s w =
        elim (prepare_files d uuid access disk 0 file_paths s) [
          | none ↦ none
          | some (files, s') ↦
              if is_nil files
              then some (s', w)
              else if is_empty host || port == 0
              then some (s', w)
              else (let (connection, w') = net.connect host port w in
                  elim connection [
                    | Connection.refused ↦ some (
                      record (feedback Feedback.network_error s') {
                        session_status = SessionStatus.failed;
                      },
                      w',
                    )
                    | Connection.connected ip local_port ↦
                        let device : DeviceInfo = record local {
                          ip_address = ip;
                          port = local_port;
                        } in
                        let dto : RequestSendDto = record { device_info = device; files = files } in
                        elim (negotiate fuel dto
                          (record s' { session_status = SessionStatus.waiting }) w') [
                            | goes_on s'' w'' ↦ some (send_all s'' w'')
                            | over s'' w'' ↦ some (s'', w'')
                            | undefined ↦ none
                            | unfinished ↦ none
                          ]
                  ])
        ]
