-- ===== src/Send/Transfer.antt =====
-- SendSession::sendFile, sendChunk, verifyIntegrity and cancelSend (send_session.cc, lines 40 to 67 and
-- 314 to 566).
use lan_send.Base.{
  ℕ, zero, suc, ◌+◌, ◌-◌, ◌*◌, min, String, none, some, Bool, true, false, ◌==◌, ◌&&◌, not,
  if◌then◌else◌, lookup, ◌++◌, length, take, drop, replicate, is_nil,
}
use lan_send.Message.{Bytes, create_binary_message}
use lan_send.Hasher.{Digest, calculate_data_checksum}
use lan_send.Json.{Codec}
use lan_send.Naming.{Disk}
use lan_send.Model.{SessionStatus, Feedback, What, SendChunkDto, VerifyIntegrityDto}
use lan_send.Http.{body_is}
use lan_send.Send.{
  SendSession, TransferFileInfo, Network, Reply, Exchange, feedback, by_sender, is_cancelled,
  cancelled_meanwhile, default_chunk_size,
}
use lan_send.ApiRoute

unfoldable pub session_ended : Bool → What → SendSession → SendSession
session_ended cancelled_by_receiver e s =
    feedback
      (Feedback.send_session_ended s.session_id s.receiver_device_id false cancelled_by_receiver e)
      s

-- What a response to a chunk or to a verification comes to.
unfoldable pub take_answer : Reply → SendSession → Bool × SendSession
unfolding session_ended
take_answer r s =
    if r.status == 200
    then (true, s)
    else if r.status == 403 && body_is "receiver cancelled" r.body
    then (
      false,
      session_ended true What.no_text
          (record s { session_status = SessionStatus.cancelled_by_receiver }),
    )
    else (false, s)

-- The end of a wait: a user that cancelled meanwhile wins over the answer.
unfoldable pub take_exchange : Exchange → SendSession → Bool × SendSession
unfolding take_answer
take_exchange x s =
    let s' = cancelled_meanwhile x.cancelled s in
    elim x.reply [
      | none ↦ (false, s')
      | some r ↦ if by_sender s'.session_status then (false, s') else take_answer r s'
    ]

-- The buffer of the chunk: its size is computed from the size that was prepared. The file is
-- taken not to grow meanwhile, where `file.read` would write behind the buffer.
unfoldable pub chunk_data : TransferFileInfo → ℕ → Bytes → Bytes
chunk_data info idx block =
    let size = min default_chunk_size (info.file_size - idx * default_chunk_size) in
    take size (block ++ replicate (size - length block) 0)

-- A chunk was not sent.
unfoldable pub chunk_failed : SendSession → SendSession
unfolding session_ended
chunk_failed s =
    if is_cancelled s.session_status
    then s
    else session_ended false (What.literal "Failed to send chunk")
        (record s { session_status = SessionStatus.failed })

-- The catch block of sendFile.
unfoldable pub file_failed : What → SendSession → SendSession
unfolding session_ended
file_failed e s =
    if is_cancelled s.session_status
    then s
    else session_ended false e (record s { session_status = SessionStatus.failed })

module _ (net : Network) where
  -- One awaited request.
  unfoldable pub ask : String → Bytes → SendSession → net.State → (Bool × SendSession) × net.State
  unfolding take_exchange
  ask route body s w =
      if by_sender s.session_status
      then ((false, s), w)
      else (take_exchange (net.exchange route body w).0 s, (net.exchange route body w).1)

  module _ (json : Codec) where
    unfoldable pub send_chunk :
        SendChunkDto → Bytes → SendSession → net.State → (Bool × SendSession) × net.State
    unfolding ask
    send_chunk dto payload =
        ask ApiRoute.send_chunk (create_binary_message json.dump (json.to_send_chunk dto) payload)

    unfoldable pub verify_integrity :
        VerifyIntegrityDto → SendSession → net.State → (Bool × SendSession) × net.State
    unfolding ask
    verify_integrity dto = ask ApiRoute.verify_integrity (json.dump (json.to_verify_integrity dto))

    -- `cancelled` of the exchange is another cancellation of the same session.
    unfoldable pub cancel_send : SendSession → net.State → (Bool × SendSession) × net.State
    cancel_send s w =
        let (x, w') =
          net.exchange ApiRoute.cancel_send (json.dump (json.to_cancel_send s.session_id)) w in
        let s' = cancelled_meanwhile x.cancelled s in
        elim x.reply [
          | none ↦ ((false, s'), w')
          | some r ↦
              if not (r.status == 200)
              then ((false, s'), w')
              else ((true, record s' { session_status = SessionStatus.cancelled_by_sender }), w')
        ]

    module _ (d : Digest) where
      -- The loop over the chunks from `idx` on, `n` of them left: false where it returned early.
      unfoldable pub send_chunks :
          ℕ
          → ℕ
          → String
          → TransferFileInfo
          → Bytes
          → SendSession
          → net.State
          → (Bool × SendSession) × net.State
      unfolding send_chunk chunk_data chunk_failed
      send_chunks zero idx file_id info content s w = ((true, s), w)
      send_chunks (suc n) idx file_id info content s w =
          let block = take default_chunk_size (drop (idx * default_chunk_size) content) in
          let payload = chunk_data info idx block in
          let dto : SendChunkDto = record {
            session_id = s.session_id;
            file_id = file_id;
            file_token = info.file_token;
            current_chunk_index = idx;
            chunk_checksum = calculate_data_checksum d payload;
          } in
          let sent = send_chunk dto payload s w in
          let later =
            send_chunks n (idx + 1) file_id info content
              (feedback
                (Feedback.file_sending_progress s.session_id info.file_path (idx + 1)
                  info.total_chunks)
                sent.0.1)
              sent.1 in
          if is_nil block
          then ((true, s), w)
          else if sent.0.0
          then later
          else ((false, chunk_failed sent.0.1), sent.1)

      -- After the last chunk: the verification and its feedback.
      unfoldable pub finish_file :
          String → TransferFileInfo → SendSession → net.State → SendSession × net.State
      unfolding verify_integrity session_ended
      finish_file file_id info s w =
          let dto : VerifyIntegrityDto = record {
            session_id = s.session_id;
            file_id = file_id;
            file_token = info.file_token;
          } in
          let ((finalized, s'), w') = verify_integrity dto s w in
          if finalized
          then (feedback (Feedback.file_sending_completed s'.session_id info.file_path) s', w')
          else if is_cancelled s'.session_status
          then (s', w')
          else (
            record (session_ended false (What.literal "File verification failed") s') {
              session_status = SessionStatus.failed;
            },
            w',
          )

      unfoldable pub send_file : Disk → String → SendSession → net.State → SendSession × net.State
      unfolding send_chunks finish_file file_failed
      send_file disk file_id s w =
          if is_cancelled s.session_status
          then (s, w)
          else if not (net.is_connected w)
          then (file_failed (What.literal "No active connection for sending chunk") s, w)
          else elim (lookup file_id s.transfer_files) [
            | none ↦ (file_failed (What.literal "unordered_map::at") s, w)
            | some info ↦ elim (lookup info.file_path disk) [
              | none ↦ (file_failed (What.literal "Failed to open file") s, w)
              | some content ↦
                  let ((ended, s'), w') =
                    send_chunks info.total_chunks 0 file_id info content s w in
                  if ended then finish_file file_id info s' w' else (s', w')
            ]
          ]
