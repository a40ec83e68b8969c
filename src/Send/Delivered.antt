-- ===== src/Send/Delivered.antt =====
-- A sender that talks to the receiver itself: what has arrived when the chunks are sent.
use lan_send.Base.{
  ℕ, zero, suc, ◌+◌, ◌^◌, ◌<◌, String, true, false, ◌≡◌, refl, ap, subst, ◌∙◌, List, length, is_nil,
  arith, false≢true,
}
use lan_send.ApiRoute
use lan_send.Message.{Bytes, create_binary_message}
use lan_send.Hasher.{Digest}
use lan_send.Json.{Codec, ReadsChunk}
use lan_send.Disk.{ChunkIo}
use lan_send.Disk.Blocks.{block_at}
use lan_send.Model.{Feedback, SendChunkDto}
use lan_send.Http.{RequestLine}
use lan_send.Server.{answered}
use lan_send.Receive.{ReceiveSessionStatus, ReceiveFileContext, ReceiveController, Outcome}
use lan_send.Receive.Chunk.{on_send_chunk}
use lan_send.Receive.Request.{Waiting}
use lan_send.Receive.Verify.{VerifyIo}
use lan_send.Receive.Chunk.Indexes.{AllBelow}
use lan_send.Receive.Chunk.Storage.{IsCut}
use lan_send.Receive.Chunk.Outcomes.{
  IsGood, Expects, Accepts, chunk_of, received, on_send_chunk-stores,
}
use lan_send.Send.{SendSession, TransferFileInfo, Network, feedback, by_sender, default_chunk_size}
use lan_send.Send.Transfer.{send_chunk, send_chunks}
use lan_send.Send.Wire.{wire, ask-ok, routed, feedback_kept}
use lan_send.Receive.Chunk.Since.{Since, Since-same, Since-then, SinceAfter, on_send_chunk-Since}
use lan_send.Send.Cut.{chunk_data-block_at}
use lan_send.Send.Blocks.{block_nonempty}
use lan_send.Receive.Chunk.Next.{insert-next}

accepted :
    (content : Bytes) (k total : ℕ) (session_id file_id : String) (file : ReceiveFileContext)
    (req : RequestLine) (x : ReceiveController × Outcome)
    → Accepts content k total session_id file_id file x
    → ((answered req x).1.status ≡ 200)
      × Expects content k total session_id file_id (answered req x).0 file
unfolding Accepts answered
accepted content k total session_id file_id file req (c, Outcome.responded res) h = h
accepted content k total session_id file_id file req (c, Outcome.threw e) h = absurd (false≢true h)

answered-Since :
    (req : RequestLine) (b : ReceiveController) (x : ReceiveController × Outcome)
    → (answered req x).0.session_status ≡ ReceiveSessionStatus.working
    → SinceAfter b x
    → Since b (answered req x).0
unfolding answered SinceAfter
answered-Since req b (c, Outcome.responded res) on h = h on
answered-Since req b (c, Outcome.threw e) on h = h on

-- One round of the loop, where its chunk is sent.
send_chunks-step :
    (net : Network) (json : Codec) (d : Digest) (n idx : ℕ) (file_id : String)
    (info : TransferFileInfo) (content : Bytes) (s : SendSession) (w w' : net.State)
    → info.file_size ≡ length content
    → is_nil (block_at content default_chunk_size idx) ≡ false
    → send_chunk net json
        (chunk_of d s.session_id file_id info.file_token idx
          (block_at content default_chunk_size idx))
        (block_at content default_chunk_size idx)
        s
        w
      ≡ ((true, s), w')
    → send_chunks net json d (suc n) idx file_id info content s w
      ≡ send_chunks net json d n
          (idx + 1)
          file_id
          info
          content
          (feedback
            (Feedback.file_sending_progress s.session_id info.file_path (idx + 1) info.total_chunks)
            s)
          w'
unfolding send_chunks
send_chunks-step net json d n idx file_id info content s w w' size full sent =
    rw (send_chunks, chunk_data-block_at info content idx size, full, sent) refl

same_chunk :
    (d : Digest) (id id' token token' file_id : String) (i : ℕ) (block : Bytes)
    → id ≡ id'
    → token ≡ token'
    → chunk_of d id file_id token i block ≡ chunk_of d id' file_id token' i block
same_chunk d id id' token token' file_id i block e f =
    ap (λ (x : String). chunk_of d x file_id token i block) e
    ∙ ap (λ (x : String). chunk_of d id' file_id x i block) f

module _ (d : Digest) (json : Codec) (waiting : Waiting) (io : ChunkIo) (verify_io : VerifyIo)
    (req : RequestLine) (content : Bytes) (total : ℕ) (session_id file_id token : String)
    (cut : IsCut content default_chunk_size total)
    (faithful : (i : ℕ)
      → ReadsChunk json
          (chunk_of d session_id file_id token i (block_at content default_chunk_size i)))
    (fits : (i : ℕ)
      → length (
          json.dump (
            json.to_send_chunk
              (chunk_of d session_id file_id token i (block_at content default_chunk_size i))))
        < 2 ^ 32)
    (good : (i : ℕ) → IsGood io (block_at content default_chunk_size i)) where
  chunk_arrives :
      (i : ℕ) (file : ReceiveFileContext) (s : SendSession) (c : ReceiveController)
      → i < total
      → by_sender s.session_status ≡ false
      → file.file_token ≡ token
      → Expects content default_chunk_size total session_id file_id c file
      → (c' : ReceiveController) × (send_chunk
            (wire d json waiting io verify_io req)
            json
            (chunk_of d session_id file_id token i (block_at content default_chunk_size i))
            (block_at content default_chunk_size i)
            s
            c
          ≡ ((true, s), c'))
        × Expects content default_chunk_size total session_id file_id c' (received i file)
        × Since c c'
  unfolding send_chunk
  chunk_arrives i file s c lt open_session same h =
      let body =
        create_binary_message json.dump
          (json.to_send_chunk
            (chunk_of d session_id file_id token i (block_at content default_chunk_size i)))
          (block_at content default_chunk_size i) in
      let run =
        on_send_chunk-stores content default_chunk_size total session_id file_id file i d json c io
          req cut lt (rw same (faithful i)) (rw same (fits i)) (good i) h in
      let stored =
        accepted content default_chunk_size total session_id file_id (received i file) req
          (on_send_chunk d json io false req body c)
          (subst
            (λ (t : String).
              Accepts content default_chunk_size total session_id file_id (received i file) (
                on_send_chunk d json io false req
                  (create_binary_message json.dump
                    (json.to_send_chunk
                      (chunk_of d session_id file_id t i (block_at content default_chunk_size i)))
                    (block_at content default_chunk_size i))
                  c))
            same run) in
      (
        (answered req (on_send_chunk d json io false req body c)).0,
        ask-ok (wire d json waiting io verify_io req) ApiRoute.send_chunk body s c _
            (record {
              status = (answered req (on_send_chunk d json io false req body c)).1.status;
              body = (answered req (on_send_chunk d json io false req body c)).1.body;
            })
            open_session (rw (routed d json waiting io verify_io req body c) refl) stored.0,
        stored.1,
        answered-Since req c (on_send_chunk d json io false req body c) stored.1.working
            (on_send_chunk-Since c d json io false req body),
      )

  -- From the state in which the chunks below `idx` were counted, the loop sends the `n` that are left,
  -- and then the receiver holds all of them; the sender's status and session are as before, and so are
  -- the receiver's directory and what stands at every path that is no temporary one.
  pub send_chunks-arrive :
      (n idx : ℕ) (info : TransferFileInfo) (file : ReceiveFileContext) (s : SendSession)
      (c : ReceiveController)
      → idx + n ≡ total
      → info.file_size ≡ length content
      → info.file_token ≡ token
      → s.session_id ≡ session_id
      → by_sender s.session_status ≡ false
      → file.file_token ≡ token
      → AllBelow idx file.received_chunks
      → length file.received_chunks ≡ idx
      → Expects content default_chunk_size total session_id file_id c file
      → (s' : SendSession) × (c' : ReceiveController) × (received : List ℕ) × (send_chunks
            (wire d json waiting io verify_io req)
            json
            d
            n
            idx
            file_id
            info
            content
            s
            c
          ≡ ((true, s'), c'))
        × (s'.session_status ≡ s.session_status)
        × (s'.session_id ≡ session_id)
        × (length received ≡ total)
        × Expects content default_chunk_size total session_id file_id c'
            (record file { received_chunks = received })
        × Since c c'
  unfolding send_chunks
  send_chunks-arrive zero idx info file s c whole size known id open_session same below count h =
      (s, c, file.received_chunks, refl, refl, id, omega (arith, whole, count), h, Since-same c)
  send_chunks-arrive (suc n) idx info file s c whole size known id open_session same below count h =
      let lt : idx < total = omega (arith, whole) in
      let (c', sent, h', since) = chunk_arrives idx file s c lt open_session same h in
      let next =
        feedback
          (Feedback.file_sending_progress s.session_id info.file_path (idx + 1) info.total_chunks)
          s in
      let kept =
        feedback_kept
          (Feedback.file_sending_progress s.session_id info.file_path (idx + 1) info.total_chunks)
          s in
      let grown = insert-next idx file.received_chunks below in
      let (s'', c'', received, run, status, id', all, h'', since') =
        send_chunks-arrive n (idx + 1) info (received idx file) next c' (omega (arith, whole)) size
          known (kept.1 ∙ id) (ap by_sender kept.0 ∙ open_session) same grown.0
          (grown.1 ∙ omega (arith, count)) h' in
      (
        s'',
        c'',
        received,
        send_chunks-step (wire d json waiting io verify_io req) json d n idx file_id info content s
              c c' size
              (block_nonempty content default_chunk_size idx cut.positive (cut.inside idx lt))
              (ap
                  (λ (m : SendChunkDto).
                    send_chunk (wire d json waiting io verify_io req) json m
                      (block_at content default_chunk_size idx) s c)
                  (same_chunk d s.session_id session_id info.file_token token file_id idx
                    (block_at content default_chunk_size idx) id known)
                ∙ sent)
            ∙ run,
        status ∙ kept.0,
        id',
        all,
        h'',
        Since-then c c' c'' since since',
      )
