-- ===== src/Receive/Chunk/Since.antt =====
-- ReceiveController::onSendChunk: what stays while it handles a message.
use lan_send.Base.{
  String, Bool, some, arith, false, ◌≡◌, ◌≢◌, refl, sym, ◌∙◌, if_keeps, option_cases, lookup, not,
  str_eq, [],
}
use lan_send.Message.{Bytes}
use lan_send.Hasher.{Digest}
use lan_send.Json.{Codec}
use lan_send.Disk.{ChunkIo, open_temp}
use lan_send.Naming.{Disk}
use lan_send.Model.{SendChunkDto, Feedback, What}
use lan_send.Http.{RequestLine, HttpResponse}
use lan_send.Receive.{
  is_working, ReceiveSessionStatus, ReceiveFileContext, ReceiveController, Outcome, Attempt,
  feedback, end_session, reset_to_idle, recover,
}
use lan_send.Receive.Chunk.{
  insert, count_chunk, record_chunk, write_chunk, accept_chunk, process_chunk, read_chunk,
  on_send_chunk,
}
use lan_send.Receive.Temporary.{NotTemp, NotTemp-lookup, NotTemp-assign, lookup-assign_other}

-- The controller saves to the same directory, a path that was no temporary path is none, and what
-- stands there, or that nothing does, is as before.
pub record Since (b c : ReceiveController) : Type 0 where
  pub saves : c.save_dir ≡ b.save_dir
  pub apart : (q : String) → NotTemp q b.received_files → NotTemp q c.received_files
  pub stands : (q : String) → NotTemp q b.received_files → lookup q c.disk ≡ lookup q b.disk

pub Since-same : (c : ReceiveController) → Since c c
Since-same c = record { saves = refl; apart = λ q n. n; stands = λ q n. refl }

pub Since-then : (b c e : ReceiveController) → Since b c → Since c e → Since b e
Since-then b c e h k = record {
  saves = k.saves ∙ h.saves;
  apart = λ q n. k.apart q (h.apart q n);
  stands = λ q n. k.stands q (h.apart q n) ∙ h.stands q n;
}

idle_apart : ReceiveSessionStatus.idle ≢ ReceiveSessionStatus.working
idle_apart e = cc

module _ (b : ReceiveController) where
  -- Of a handler that does not end the session.
  SinceAttempt : Attempt → Type 0
  SinceAttempt (Attempt.returned c res) = Since b c
  SinceAttempt (Attempt.raised c e) = Unit {0}

  returned-Since :
      {c : ReceiveController} (res : HttpResponse)
      → Since b c
      → SinceAttempt (Attempt.returned c res)
  unfolding SinceAttempt
  returned-Since res h = h

  raised-Since : (c : ReceiveController) (e : What) → SinceAttempt (Attempt.raised c e)
  unfolding SinceAttempt
  raised-Since c e = tt

  unfoldable pub SinceAfter : ReceiveController × Outcome → Type 0
  SinceAfter r = r.0.session_status ≡ ReceiveSessionStatus.working → Since b r.0

  same-Since : (o : Outcome) → SinceAfter (b, o)
  unfolding SinceAfter
  same-Since o = λ _. Since-same b

  idle-Since :
      (c : ReceiveController) (o : Outcome)
      → c.session_status ≡ ReceiveSessionStatus.idle
      → SinceAfter (c, o)
  unfolding SinceAfter
  idle-Since c o off = λ on. absurd (idle_apart (sym off ∙ on))

  feedback-Since : (f : Feedback) (c : ReceiveController) → Since b c → Since b (feedback f c)
  unfolding feedback
  feedback-Since f c h =
      if_keeps (Since b) c.has_callback _ _
        (record { saves = h.saves; apart = h.apart; stands = h.stands }) h

  feedback-status :
      (f : Feedback) (c : ReceiveController) → (feedback f c).session_status ≡ c.session_status
  unfolding feedback
  feedback-status f c =
      if_keeps (λ (x : ReceiveController). x.session_status ≡ c.session_status) c.has_callback _ _
        refl refl

  recover-Since : (req : RequestLine) (a : Attempt) → SinceAttempt a → SinceAfter (recover req a)
  unfolding SinceAttempt SinceAfter recover end_session reset_to_idle
  recover-Since req (Attempt.returned c res) h = λ _. h
  recover-Since req (Attempt.raised c e) h =
      idle-Since (end_session false false e c) (recover req (Attempt.raised c e)).1
        (feedback-status _ (reset_to_idle c))

  module _ (dto : SendChunkDto) (file : ReceiveFileContext)
      (known : lookup dto.file_id b.received_files ≡ some file) where
    count_chunk-Since :
        (disk : Disk)
        → ((q : String) → NotTemp q b.received_files → lookup q disk ≡ lookup q b.disk)
        → Since b (count_chunk dto file (record b { disk = disk }))
    unfolding count_chunk
    count_chunk-Since disk stands = record {
      saves = refl;
      apart = λ q n.
          NotTemp-assign q dto.file_id
            (record file { received_chunks = insert dto.current_chunk_index file.received_chunks })
            b.received_files (NotTemp-lookup q dto.file_id file b.received_files known n) n;
      stands = stands;
    }

    open_temp-lookup :
        (io : ChunkIo) (q p : String) (disk opened : Disk)
        → p ≢ q
        → open_temp io p disk ≡ some opened
        → lookup q opened ≡ lookup q disk
    unfolding open_temp
    open_temp-lookup io q p disk opened ne e =
        ground (arith, lookup-assign_other {V = Bytes} p q [] disk ne)

    write_chunk-Since :
        (io : ChunkIo) (req : RequestLine) (block : Bytes)
        → SinceAttempt (write_chunk io req dto block file b)
    unfolding write_chunk record_chunk
    write_chunk-Since io req block =
        option_cases SinceAttempt (open_temp io file.temp_file_path b.disk) _ _ (raised-Since _ _)
          (λ opened e. if_keeps SinceAttempt _ _ _ (raised-Since _ _) (
            returned-Since _ (
              feedback-Since _ _ (
                count_chunk-Since _ (λ q n.
                  let ne = NotTemp-lookup q dto.file_id file b.received_files known n in
                  lookup-assign_other file.temp_file_path q _ opened ne
                  ∙ open_temp-lookup io q file.temp_file_path b.disk opened ne e)))))

    accept_chunk-Since :
        (d : Digest) (io : ChunkIo) (req : RequestLine) (block : Bytes)
        → SinceAttempt (accept_chunk d io req dto block file b)
    unfolding accept_chunk
    accept_chunk-Since d io req block =
        if_keeps SinceAttempt (not (str_eq file.file_token dto.file_token)) _ _ (raised-Since _ _) (
          if_keeps SinceAttempt _ _ _ (returned-Since _ (Since-same b))
            (if_keeps SinceAttempt _ _ _ (raised-Since _ _) (write_chunk-Since io req block)))

  process_chunk-Since :
      (d : Digest) (io : ChunkIo) (req : RequestLine) (dto : SendChunkDto) (block : Bytes)
      → SinceAttempt (process_chunk d io req dto block b)
  unfolding process_chunk
  process_chunk-Since d io req dto block =
      if_keeps SinceAttempt (not (str_eq dto.session_id b.session_id)) _ _ (raised-Since _ _) (
        option_cases SinceAttempt (lookup dto.file_id b.received_files) _ _ (raised-Since _ _)
          (λ file known. accept_chunk-Since dto file known d io req block))

  pub on_send_chunk-Since :
      (d : Digest) (json : Codec) (io : ChunkIo) (cancelled : Bool) (req : RequestLine)
      (body : Bytes)
      → SinceAfter (on_send_chunk d json io cancelled req body b)
  unfolding on_send_chunk reset_to_idle
  on_send_chunk-Since d json io cancelled req body =
      if_keeps SinceAfter (not (is_working b.session_status)) _ _ (same-Since _) (
        if_keeps SinceAfter _ _ _ (same-Since _) (
          if_keeps SinceAfter cancelled _ _ (idle-Since (reset_to_idle b) _ refl) (
            option_cases SinceAfter (read_chunk json body) _ _ (same-Since _)
              (λ m _. recover-Since req _ (process_chunk-Since d io req m.0 m.1)))))
