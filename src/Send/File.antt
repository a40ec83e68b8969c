-- ===== src/Send/File.antt =====
-- A whole file on its way: the chunks, the verification, and the file on the receiver's disk.
use lan_send.Base.{
  ℕ, List, ◌^◌, ◌<◌, String, some, true, false, ◌≡◌, refl, ap, ◌∙◌, length, lookup, arith,
  false≢true, [],
}
use lan_send.ApiRoute
use lan_send.Path.{join}
use lan_send.Message.{Bytes}
use lan_send.Hasher.{Digest, IsStreaming, calculate_data_checksum}
use lan_send.Json.{Codec, ReadsChunk, ReadsVerify}
use lan_send.Naming.{Disk, exists, final_path}
use lan_send.Disk.{ChunkIo}
use lan_send.Disk.Blocks.{block_at}
use lan_send.Model.{SessionStatus, Feedback, VerifyIntegrityDto}
use lan_send.Http.{RequestLine}
use lan_send.Server.{receive_routes, handle_request, find_route, answered}
use lan_send.Receive.{ReceiveFileContext, ReceiveController, Outcome}
use lan_send.Receive.Chunk.Storage.{IsCut}
use lan_send.Receive.Chunk.Outcomes.{IsGood, Expects, chunk_of}
use lan_send.Receive.Temporary.{NotTemp}
use lan_send.Receive.Request.{Waiting}
use lan_send.Receive.Verify.{VerifyIo, on_verify_integrity}
use lan_send.Receive.Verify.Saved.{Saves, on_verify_integrity-Saves}
use lan_send.Send.{
  SendSession, TransferFileInfo, is_cancelled, by_sender, feedback, default_chunk_size,
}
use lan_send.Send.Transfer.{send_chunks, verify_integrity, finish_file, send_file}
use lan_send.Send.Wire.{wire, ask-ok, feedback_kept}
use lan_send.Send.Delivered.{send_chunks-arrive}
use lan_send.Send.Steps.{finish_file-ok, send_file-ok}

verify_routed :
    (d : Digest) (json : Codec) (waiting : Waiting) (io : ChunkIo) (verify_io : VerifyIo)
    (req : RequestLine) (body : Bytes) (c : ReceiveController)
    → handle_request
        (receive_routes d json waiting io verify_io false)
        "POST"
        ApiRoute.verify_integrity
        req
        body
        c
      ≡ answered req (on_verify_integrity d json verify_io false req body c)
unfolding handle_request receive_routes find_route
verify_routed d json waiting io verify_io req body c = refl

answered-Saves :
    (path : String) (content : Bytes) (req : RequestLine) (x : ReceiveController × Outcome)
    → Saves path content x
    → ((answered req x).1.status ≡ 200) × (lookup path (answered req x).0.disk ≡ some content)
unfolding Saves answered
answered-Saves path content req (c, Outcome.responded res) h = h
answered-Saves path content req (c, Outcome.threw e) h = absurd (false≢true h)

not_by_sender : (s : SessionStatus) → is_cancelled s ≡ false → by_sender s ≡ false
not_by_sender s h = ground arith

-- A name that is free in the directory is the final name.
final_path-here :
    (disk : Disk) (dir name : String)
    → exists (join dir name) disk ≡ false
    → final_path disk dir name ≡ some (join dir name)
unfolding final_path
final_path-here disk dir name free = rw free refl

exists-lookup :
    (p : String) (before after : Disk)
    → lookup p after ≡ lookup p before
    → exists p before ≡ false
    → exists p after ≡ false
unfolding exists
exists-lookup p before after e h = rw (exists, e) h

verification_of : String → String → String → VerifyIntegrityDto
verification_of session_id file_id file_token = record {
  session_id = session_id;
  file_id = file_id;
  file_token = file_token;
}

same_verification :
    (file_id id id' token token' : String)
    → id ≡ id'
    → token ≡ token'
    → verification_of id file_id token ≡ verification_of id' file_id token'
same_verification file_id id id' token token' e f =
    ap (λ (x : String). verification_of x file_id token) e ∙ ap (verification_of id' file_id) f

module _ (d : Digest) (json : Codec) (waiting : Waiting) (io : ChunkIo) (verify_io : VerifyIo)
    (req : RequestLine) (content : Bytes) (total : ℕ) (session_id file_id : String)
    (file : ReceiveFileContext) (cut : IsCut content default_chunk_size total)
    (faithful : (i : ℕ)
      → ReadsChunk json
          (chunk_of d session_id file_id file.file_token i (block_at content default_chunk_size i)))
    (fits : (i : ℕ)
      → length (
          json.dump (
            json.to_send_chunk (
              chunk_of d session_id file_id file.file_token i
                (block_at content default_chunk_size i))))
        < 2 ^ 32)
    (good : (i : ℕ) → IsGood io (block_at content default_chunk_size i)) (streaming : IsStreaming d)
    (reads_verify : ReadsVerify json
      (record { session_id = session_id; file_id = file_id; file_token = file.file_token }))
    (readable : verify_io.can_read ≡ true) (renames : verify_io.can_rename ≡ true)
    (nonempty : 0 < length content) (announced : file.total_chunks ≡ total)
    (sum : file.file_checksum ≡ calculate_data_checksum d content) where
  -- The verification of a file whose blocks have all arrived.
  verification_saves :
      (info : TransferFileInfo) (received : List ℕ) (s : SendSession) (c : ReceiveController)
      (path : String)
      → info.file_token ≡ file.file_token
      → s.session_id ≡ session_id
      → by_sender s.session_status ≡ false
      → length received ≡ total
      → Expects content default_chunk_size total session_id file_id c
          (record file { received_chunks = received })
      → final_path c.disk c.save_dir file.file_name ≡ some path
      → NotTemp path c.received_files
      → (c' : ReceiveController) × (finish_file
            (wire d json waiting io verify_io req)
            json
            d
            file_id
            info
            s
            c
          ≡ (feedback (Feedback.file_sending_completed s.session_id info.file_path) s, c'))
        × (lookup path c'.disk ≡ some content)
  unfolding verify_integrity verification_of
  verification_saves info received s c path token id open_session full h named apart =
      let honest = verification_of session_id file_id file.file_token in
      let body = json.dump (json.to_verify_integrity honest) in
      let handled = on_verify_integrity d json verify_io false req body c in
      let saved =
        answered-Saves path content req handled
          (on_verify_integrity-Saves content default_chunk_size total session_id file_id path
            (record file { received_chunks = received }) d json c verify_io req cut streaming
            reads_verify readable renames nonempty h full announced sum named apart).1 in
      (
        (answered req handled).0,
        finish_file-ok (wire d json waiting io verify_io req) json d file_id info s c _ (
            ap
              (λ (m : VerifyIntegrityDto).
                verify_integrity (wire d json waiting io verify_io req) json m s c)
              (same_verification file_id s.session_id session_id info.file_token file.file_token id
                token)
            ∙ ask-ok (wire d json waiting io verify_io req) ApiRoute.verify_integrity body s c _
                (record {
                  status = (answered req handled).1.status;
                  body = (answered req handled).1.body;
                })
                open_session (rw (verify_routed d json waiting io verify_io req body c) refl)
                saved.0),
        saved.1,
      )

  -- A whole file of a sending session: all its chunks and its verification are answered 200, the
  -- sender's status is as before, and in the end the receiver has exactly the sender's content under
  -- the announced name in its directory. There was no such file before, and the name is no temporary
  -- one; the receiver has the file registered and nothing of it received; the file is not empty and
  -- has the announced checksum, both devices work, neither user cancels, JSON is read back, and the
  -- metadata of a chunk is shorter than 2 ^ 32 bytes.
  pub send_file-delivers :
      (disk : Disk) (info : TransferFileInfo) (s : SendSession) (c : ReceiveController)
      → lookup file_id s.transfer_files ≡ some info
      → lookup info.file_path disk ≡ some content
      → info.file_size ≡ length content
      → info.total_chunks ≡ total
      → info.file_token ≡ file.file_token
      → s.session_id ≡ session_id
      → is_cancelled s.session_status ≡ false
      → file.received_chunks ≡ []
      → Expects content default_chunk_size total session_id file_id c file
      → exists (join c.save_dir file.file_name) c.disk ≡ false
      → NotTemp (join c.save_dir file.file_name) c.received_files
      → (s' : SendSession) × (c' : ReceiveController) × (send_file
            (wire d json waiting io verify_io req)
            json
            d
            disk
            file_id
            s
            c
          ≡ (s', c'))
        × (s'.session_status ≡ s.session_status)
        × (lookup (join c.save_dir file.file_name) c'.disk ≡ some content)
  send_file-delivers disk info s c known here size chunks token id going nothing h free apart =
      let path = join c.save_dir file.file_name in
      let net = wire d json waiting io verify_io req in
      let open_session = not_by_sender s.session_status going in
      let (s1, c1, received, sent, status, id', full, h', since) =
        send_chunks-arrive d json waiting io verify_io req content total session_id file_id
          file.file_token cut faithful fits good total 0 info file s c (omega arith) size token id
          open_session refl (rw nothing tt) (rw nothing refl) h in
      let named : final_path c1.disk c1.save_dir file.file_name ≡ some path = rw since.saves (
        final_path-here c1.disk c.save_dir file.file_name
          (exists-lookup path c.disk c1.disk (since.stands path apart) free)) in
      let (c2, verified, saved) =
        verification_saves info received s1 c1 path token id' (ap by_sender status ∙ open_session)
          full h' named (since.apart path apart) in
      let done = feedback_kept (Feedback.file_sending_completed s1.session_id info.file_path) s1 in
      (
        feedback (Feedback.file_sending_completed s1.session_id info.file_path) s1,
        c2,
        send_file-ok net json d disk file_id info content s s1 c c1 going refl known here
              (ap (λ (n : ℕ). send_chunks net json d n 0 file_id info content s c) chunks ∙ sent)
            ∙ verified,
        done.0 ∙ status,
        saved,
      )
