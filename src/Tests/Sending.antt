-- ===== src/Tests/Sending.antt =====
-- The sending side at concrete inputs: a file of three bytes, which is one chunk.
use lan_send.Base.{some, ℕ, true, ◌≡◌, refl, List, [], ◌∷◌, length, arith, lookup}
use lan_send.Message.{Bytes}
use lan_send.Json.{Codec}
use lan_send.Disk.Blocks.{block_at, length-block_at}
use lan_send.Model.{SessionStatus}
use lan_send.Receive.{ReceiveController}
use lan_send.Receive.Chunk.Storage.{IsCut, Holds-nothing}
use lan_send.Receive.Chunk.Outcomes.{IsGood, Expects}
use lan_send.Send.{SendSession, TransferFileInfo, default_chunk_size}
use lan_send.Send.Prepare.{chunk_count}
use lan_send.Send.Cut.{chunk_count-IsCut}
use lan_send.Send.Transfer.{send_chunks}
use lan_send.Receive.Chunk.Since.{Since}
use lan_send.Hasher.{calculate_data_checksum, to_hex}
use lan_send.Naming.{exists}
use lan_send.Path.{join}
use lan_send.Send.Transfer.{send_file}
use lan_send.Send.File.{send_file-delivers}
use lan_send.Send.Wire.{wire}
use lan_send.Send.Delivered.{send_chunks-arrive}
use lan_send.Tests.Toy.{
  different, reading_io, identity_digest-IsStreaming, session_codec-verify, identity_digest,
  session_codec, session_codec-chunk, request_line, working_io, file_of, receiving, declined,
}

abbrev pub content : Bytes
content = 7 ∷ 8 ∷ 9 ∷ []

chunk_count-IsCut_example :
    IsCut content default_chunk_size (chunk_count (length content) default_chunk_size)
unfolding default_chunk_size
chunk_count-IsCut_example = chunk_count-IsCut content (omega arith)

abbrev pub codec : Codec
codec = session_codec content default_chunk_size

one_chunk : IsCut content default_chunk_size 1
unfolding default_chunk_size
one_chunk = record {
  positive = omega arith;
  covers = omega arith;
  inside = λ i lt. omega arith;
  sized = omega arith;
}

block-IsGood : (i : ℕ) → IsGood working_io (block_at content default_chunk_size i)
block-IsGood i = record {
  opens = refl;
  creates = refl;
  roomy = omega (arith, length-block_at content default_chunk_size i);
}

abbrev info : TransferFileInfo
info = record { file_path = "/h/a.txt"; file_size = 3; total_chunks = 1; file_token = "t" }

abbrev pub session : SendSession
session = record {
  transfer_files = ("f", info) ∷ [];
  session_status = SessionStatus.sending;
  session_id = "s";
  receiver_device_id = "dev";
  has_callback = true;
  feedbacks = [];
}

abbrev receiver : ReceiveController
receiver = receiving (file_of default_chunk_size 1 []) []

receiver-Expects :
    Expects content default_chunk_size 1 "s" "f" receiver (file_of default_chunk_size 1 [])
unfolding lookup
receiver-Expects = record {
  working = refl;
  asks = refl;
  session = refl;
  registered = refl;
  cut = refl;
  holds = Holds-nothing content default_chunk_size 1;
}

send_chunks-arrive_example :
    (s' : SendSession) × (c' : ReceiveController) × (received : List ℕ) × (send_chunks
        (wire identity_digest codec declined working_io reading_io request_line)
        codec
        identity_digest
        1
        0
        "f"
        info
        content
        session
        receiver
      ≡ ((true, s'), c'))
    × (s'.session_status ≡ SessionStatus.sending)
    × (s'.session_id ≡ "s")
    × (length received ≡ 1)
    × Expects content default_chunk_size 1 "s" "f" c'
        (record (file_of default_chunk_size 1 []) { received_chunks = received })
    × Since receiver c'
send_chunks-arrive_example =
    send_chunks-arrive identity_digest codec declined working_io reading_io request_line content 1
      "s" "f" "t" one_chunk (session_codec-chunk content default_chunk_size) (λ i. omega arith)
      block-IsGood 1 0 info (file_of default_chunk_size 1 []) session receiver (omega arith) refl
      refl refl refl refl tt refl receiver-Expects

send_file-delivers_example :
    (s' : SendSession) × (c' : ReceiveController) × (send_file
        (wire identity_digest codec declined working_io reading_io request_line)
        codec
        identity_digest
        (("/h/a.txt", content) ∷ [])
        "f"
        session
        receiver
      ≡ (s', c'))
    × (s'.session_status ≡ SessionStatus.sending)
    × (lookup "/d/a.txt" c'.disk ≡ some content)
unfolding lookup exists join calculate_data_checksum to_hex
send_file-delivers_example =
    send_file-delivers identity_digest codec declined working_io reading_io request_line content 1
      "s" "f" (file_of default_chunk_size 1 []) one_chunk
      (session_codec-chunk content default_chunk_size) (λ i. omega arith) block-IsGood
      identity_digest-IsStreaming (session_codec-verify content default_chunk_size) refl refl
      (omega arith) refl refl (("/h/a.txt", content) ∷ []) info session receiver refl refl refl refl
      refl refl refl refl receiver-Expects refl (different "/d/f.part" "/d/a.txt" refl, tt)
