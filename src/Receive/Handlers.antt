-- ===== src/Receive/Handlers.antt =====
-- ReceiveController's handlers and the invariant of the receiving side.
use lan_send.Naming.{Disk, final_path}
use lan_send.Base.{
  if_cases, ◌==◌, ◌≢◌, option_cases, Bool-cases, String, none, some, Bool, true, false, ◌≡◌, refl,
  sym, ◌∙◌, [], is_empty, if_keeps, lookup, arith, inl, inr, not, str_eq, length, false≢true,
}
use lan_send.Message.{Bytes}
use lan_send.Hasher.{Digest, checksum_of_stream}
use lan_send.Json.{Codec, read_with}
use lan_send.Disk.{ChunkIo, open_temp}
use lan_send.Model.{What, SendChunkDto, VerifyIntegrityDto}
use lan_send.Http.{HttpResponse, RequestLine}
use lan_send.Receive.{
  ReceiveSessionStatus, ReceiveFileContext, ReceiveController, Attempt, check_session_completion,
  recover, is_working,
}
use lan_send.Receive.Attempt.{returned, raised}
use lan_send.Receive.Session.{
  DistinctChunks-assign, Distinct-lookup, IsConsistent, feedback-IsConsistent,
  reset_to_idle-IsConsistent, end_session-IsConsistent,
}
use lan_send.Receive.Chunk.Indexes.{insert-Distinct}
use lan_send.Receive.Chunk.{
  content_of, count_chunk, record_chunk, write_chunk, accept_chunk, process_chunk, read_chunk,
  on_send_chunk, insert,
}
use lan_send.Receive.Verify.{
  VerifyIo, move_file, save_file, finish_file, check_file, process_verify, on_verify_integrity,
}
use lan_send.Receive.Cancel.{on_cancel_send, on_cancel_wait}

-- An attempt leaves a consistent state where it returns; where it throws, the state is reset.
Consistent : Attempt → Type 0
Consistent (returned c res) = IsConsistent c
Consistent (raised c e) = Unit {0}

returned-Consistent :
    {c : ReceiveController} (res : HttpResponse) → IsConsistent c → Consistent (returned c res)
unfolding Consistent
returned-Consistent res h = h

raised-Consistent : (c : ReceiveController) (e : What) → Consistent (raised c e)
unfolding Consistent
raised-Consistent c e = tt

unfoldable pub After {ℓ} : {A : Type ℓ} → ReceiveController × A → Type 0
After r = IsConsistent r.0

pub pair-After {ℓ} : {A : Type ℓ} (c : ReceiveController) (a : A) → IsConsistent c → After (c, a)
unfolding After
pair-After c a h = h

pub working_of :
    (c : ReceiveController)
    → not (is_working c.session_status) ≡ false
    → c.session_status ≡ ReceiveSessionStatus.working
working_of c h = ground arith

recover-After : (req : RequestLine) (a : Attempt) → Consistent a → After (recover req a)
unfolding recover Consistent After
recover-After req (returned c res) h = h
recover-After req (raised c e) h = end_session-IsConsistent false false e c

lookup-nil {ℓ} : {V : Type ℓ} (k : String) → lookup {V = V} k [] ≡ none
unfolding lookup
lookup-nil k = refl

-- A registered file stands under a session id.
has_id :
    (c : ReceiveController) (f : ReceiveFileContext) (k : String)
    → IsConsistent c
    → lookup k c.received_files ≡ some f
    → is_empty c.session_id ≡ false
has_id c f k h e = elim (Bool-cases (is_empty c.session_id)) [
  | inl empty ↦ cc (h.files_have_id empty, lookup-nil {V = ReceiveFileContext} k)
  | inr full ↦ full
]

pub not_idle :
    (c : ReceiveController)
    → c.session_status ≡ ReceiveSessionStatus.working
    → c.session_status ≢ ReceiveSessionStatus.idle
not_idle c w i = cc

module _ (c : ReceiveController) (w : c.session_status ≡ ReceiveSessionStatus.working)
    (h : IsConsistent c) where
  module _ (dto : SendChunkDto) (file : ReceiveFileContext)
      (e : lookup dto.file_id c.received_files ≡ some file) where
    count_chunk-IsConsistent :
        (disk : Disk) → IsConsistent (count_chunk dto file (record c { disk = disk }))
    unfolding count_chunk
    count_chunk-IsConsistent disk = record {
      idle_cleared = λ i. absurd (not_idle c w i);
      files_have_id = λ empty. absurd (false≢true (sym (has_id c file dto.file_id h e) ∙ empty));
      distinct =
          DistinctChunks-assign dto.file_id
            (record file { received_chunks = insert dto.current_chunk_index file.received_chunks })
            c.received_files
            (insert-Distinct dto.current_chunk_index file.received_chunks
              (Distinct-lookup dto.file_id file c.received_files e h.distinct))
            h.distinct;
    }

    record_chunk-Consistent :
        (req : RequestLine) (disk : Disk)
        → Consistent (record_chunk req dto file (record c { disk = disk }))
    unfolding record_chunk
    record_chunk-Consistent req disk =
        returned-Consistent _ (feedback-IsConsistent _ _ (count_chunk-IsConsistent disk))

    write_chunk-Consistent :
        (io : ChunkIo) (req : RequestLine) (block : Bytes)
        → Consistent (write_chunk io req dto block file c)
    unfolding write_chunk
    write_chunk-Consistent io req block =
        option_cases Consistent (open_temp io file.temp_file_path c.disk) _ _
          (raised-Consistent _ _)
          (λ opened _.
            if_keeps Consistent _ _ _ (raised-Consistent _ _) (record_chunk-Consistent req _))

    accept_chunk-Consistent :
        (d : Digest) (io : ChunkIo) (req : RequestLine) (block : Bytes)
        → Consistent (accept_chunk d io req dto block file c)
    unfolding accept_chunk
    accept_chunk-Consistent d io req block =
        if_keeps Consistent (not (str_eq file.file_token dto.file_token)) _ _
          (raised-Consistent _ _)
          (if_keeps Consistent _ _ _ (returned-Consistent _ h) (
            if_keeps Consistent _ _ _ (raised-Consistent _ _)
              (write_chunk-Consistent io req block)))

  process_chunk-Consistent :
      (d : Digest) (io : ChunkIo) (req : RequestLine) (dto : SendChunkDto) (block : Bytes)
      → Consistent (process_chunk d io req dto block c)
  unfolding process_chunk
  process_chunk-Consistent d io req dto block =
      if_keeps Consistent (not (str_eq dto.session_id c.session_id)) _ _ (raised-Consistent _ _) (
        option_cases Consistent (lookup dto.file_id c.received_files) _ _ (raised-Consistent _ _)
          (λ file e. accept_chunk-Consistent dto file e d io req block))

  check_session_completion-IsConsistent :
      (c' : ReceiveController) → IsConsistent c' → IsConsistent (check_session_completion c')
  unfolding check_session_completion
  check_session_completion-IsConsistent c' h' =
      if_keeps IsConsistent (is_empty c'.session_id) _ _ h'
        (if_keeps IsConsistent _ _ _ (end_session-IsConsistent true false What.no_text c') h')

  module _ (file : ReceiveFileContext) where
    move_file-IsConsistent : (path : String) → IsConsistent (move_file file path c)
    unfolding move_file
    move_file-IsConsistent path = record {
      idle_cleared = λ i. absurd (not_idle c w i);
      files_have_id = h.files_have_id;
      distinct = h.distinct;
    }

    finish_file-Consistent :
        (io : VerifyIo) (req : RequestLine) → Consistent (finish_file io req file c)
    unfolding finish_file save_file
    finish_file-Consistent io req =
        option_cases Consistent (final_path c.disk c.save_dir file.file_name) _ _
          (raised-Consistent _ _)
          (λ path _.
            if_keeps Consistent _ _ _
              (returned-Consistent _ (
                check_session_completion-IsConsistent _
                  (feedback-IsConsistent _ _ (move_file-IsConsistent path))))
              (raised-Consistent _ _))

    check_file-Consistent :
        (d : Digest) (io : VerifyIo) (req : RequestLine) (dto : VerifyIntegrityDto)
        → Consistent (check_file d io req dto file c)
    unfolding check_file
    check_file-Consistent d io req dto =
        if_keeps Consistent (not (length file.received_chunks == file.total_chunks)) _ _
          (raised-Consistent _ _)
          (if_keeps Consistent _ _ _ (raised-Consistent _ _) (
            option_cases Consistent (checksum_of_stream d (content_of file.temp_file_path c.disk)) _
              _ (raised-Consistent _ _)
              (λ actual _.
                if_keeps Consistent _ _ _ (raised-Consistent _ _) (finish_file-Consistent io req))))

  process_verify-Consistent :
      (d : Digest) (io : VerifyIo) (req : RequestLine) (dto : VerifyIntegrityDto)
      → Consistent (process_verify d io req dto c)
  unfolding process_verify
  process_verify-Consistent d io req dto =
      if_keeps Consistent (not (str_eq dto.session_id c.session_id)) _ _ (raised-Consistent _ _) (
        option_cases Consistent (lookup dto.file_id c.received_files) _ _ (raised-Consistent _ _)
          (λ file _.
            if_keeps Consistent _ _ _ (check_file-Consistent file d io req dto)
              (raised-Consistent _ _)))

module _ (d : Digest) (json : Codec) (cancelled : Bool) (req : RequestLine) (body : Bytes)
    (c : ReceiveController) (h : IsConsistent c) where
  pub on_send_chunk-After : (io : ChunkIo) → After (on_send_chunk d json io cancelled req body c)
  unfolding on_send_chunk
  on_send_chunk-After io =
      if_cases After (not (is_working c.session_status)) _ _ (λ _. pair-After c _ h)
        (λ w. if_keeps After _ _ _ (pair-After c _ h) (
          if_keeps After _ _ _ (pair-After _ _ (reset_to_idle-IsConsistent c)) (
            option_cases After (read_chunk json body) _ _ (pair-After c _ h) (λ m _.
              recover-After req _
                (process_chunk-Consistent c (working_of c w) h d io req m.0 m.1)))))

  pub on_verify_integrity-After :
      (io : VerifyIo) → After (on_verify_integrity d json io cancelled req body c)
  unfolding on_verify_integrity
  on_verify_integrity-After io =
      if_cases After (not (is_working c.session_status)) _ _ (λ _. pair-After c _ h)
        (λ w. if_keeps After _ _ _ (pair-After c _ h) (
          if_keeps After _ _ _ (pair-After _ _ (reset_to_idle-IsConsistent c)) (
            option_cases After (read_with json.parse json.from_verify_integrity body) _ _
              (pair-After c _ h)
              (λ dto _.
                recover-After req _
                  (process_verify-Consistent c (working_of c w) h d io req dto)))))

  pub on_cancel_send-After : After (on_cancel_send json req body c)
  unfolding on_cancel_send
  on_cancel_send-After = if_keeps After (not (is_working c.session_status)) _ _ (pair-After c _ h) (
      option_cases After (read_with json.parse json.from_cancel_send body) _ _ (pair-After c _ h)
        (λ id _.
          if_keeps After _ _ _ (pair-After _ _ (end_session-IsConsistent false true What.no_text c))
            (pair-After c _ h)))

  pub on_cancel_wait-After : After (on_cancel_wait json req body c)
  unfolding on_cancel_wait
  on_cancel_wait-After = if_keeps After (not (is_working c.session_status)) _ _ (pair-After c _ h) (
      option_cases After (read_with json.parse json.from_cancel_wait body) _ _ (pair-After c _ h)
        (λ p _.
          if_keeps After _ _ _ (pair-After _ _ (end_session-IsConsistent false true What.no_text c))
            (pair-After c _ h)))
