-- ===== src/Send/Steps.antt =====
-- sendFile, where its chunks are sent and its verification is answered.
use lan_send.Base.{String, some, true, false, ◌≡◌, refl, lookup}
use lan_send.Message.{Bytes}
use lan_send.Hasher.{Digest}
use lan_send.Json.{Codec}
use lan_send.Naming.{Disk}
use lan_send.Model.{Feedback}
use lan_send.Send.{SendSession, TransferFileInfo, Network, is_cancelled, feedback}
use lan_send.Send.Transfer.{send_chunks, verify_integrity, finish_file, send_file}

pub finish_file-ok :
    (net : Network) (json : Codec) (d : Digest) (file_id : String) (info : TransferFileInfo)
    (s : SendSession) (w w' : net.State)
    → verify_integrity net json
        (record { session_id = s.session_id; file_id = file_id; file_token = info.file_token })
        s
        w
      ≡ ((true, s), w')
    → finish_file net json d file_id info s w
      ≡ (feedback (Feedback.file_sending_completed s.session_id info.file_path) s, w')
unfolding finish_file
finish_file-ok net json d file_id info s w w' e = rw e refl

pub send_file-ok :
    (net : Network) (json : Codec) (d : Digest) (disk : Disk) (file_id : String)
    (info : TransferFileInfo) (content : Bytes) (s s' : SendSession) (w w' : net.State)
    → is_cancelled s.session_status ≡ false
    → net.is_connected w ≡ true
    → lookup file_id s.transfer_files ≡ some info
    → lookup info.file_path disk ≡ some content
    → send_chunks net json d info.total_chunks 0 file_id info content s w ≡ ((true, s'), w')
    → send_file net json d disk file_id s w ≡ finish_file net json d file_id info s' w'
unfolding send_file
send_file-ok net json d disk file_id info content s s' w w' going up known here sent =
    rw (going, up, known, here, sent) refl
