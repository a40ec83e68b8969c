-- ===== src/Tests/Toy.antt =====
-- Concrete stand-ins for OpenSSL's digest and for nlohmann::json, a receiver and its messages.
use lan_send.Base.{
  false, ◌≡◌, ◌≢◌, sym, ◌∙◌, false≢true, str_eq, eq_iff, ℕ, zero, suc, String, none, some, true,
  refl, List, [], ◌∷◌, ◌++◌, append-nil, append_assoc, Assoc,
}
use lan_send.Message.{Bytes}
use lan_send.Hasher.{Digest, IsStreaming}
use lan_send.Json.{Codec, ReadsChunk, ReadsVerify}
use lan_send.Disk.{ChunkIo}
use lan_send.Disk.Blocks.{block_at}
use lan_send.Model.{DeviceInfo, FileDto, RequestSendDto, SendChunkDto, VerifyIntegrityDto}
use lan_send.FileType.{FileType}
use lan_send.Http.{RequestLine}
use lan_send.Receive.Request.{Entropy, Waiting}
use lan_send.Receive.{ReceiveSessionStatus, ReceiveFileContext, ReceiveController}
use lan_send.Receive.Verify.{VerifyIo}
use lan_send.Receive.Chunk.Outcomes.{chunk_of}

-- The digest of a message is the message.
abbrev pub identity_digest : Digest
identity_digest = record { Ctx = Bytes; init = []; update = λ c b. c ++ b; final = λ c. c }

pub identity_digest-IsStreaming : IsStreaming identity_digest
identity_digest-IsStreaming = record {
  update-nil = λ c. append-nil c;
  update-append = λ c a b. append_assoc c a b;
}

pub data Doc : Type 0 where
  request : RequestSendDto → Doc
  chunk : SendChunkDto → Doc
  verify : VerifyIntegrityDto → Doc
  text : String → Doc
  address : String × ℕ → Doc

abbrev pub device : DeviceInfo
device = record {
  device_id = "dev";
  hostname = "host";
  operating_system = "linux";
  ip_address = "10.0.0.7";
  port = 40000;
}

abbrev pub offered : FileDto
offered = record {
  file_id = "f";
  file_name = "a.txt";
  file_size = 3;
  chunk_size = 2;
  total_chunks = 2;
  file_checksum = "070809";
  file_type = FileType.text;
}

abbrev pub offer : RequestSendDto
offer = record { device_info = device; files = offered ∷ [] }

abbrev pub verification : VerifyIntegrityDto
verification = record { session_id = "s"; file_id = "f"; file_token = "t" }

-- Writes a message as one or two bytes, and reads the messages of one session back: the blocks of
-- `content`, cut into blocks of `k` bytes, for the file "f".
abbrev pub session_codec : Bytes → ℕ → Codec
session_codec content k = record {
  Doc = Doc;
  dump = elim [
    | Doc.request r ↦ 0 ∷ 0 ∷ []
    | Doc.chunk m ↦ m.current_chunk_index ∷ []
    | Doc.verify m ↦ 0 ∷ 1 ∷ []
    | Doc.text s ↦ 0 ∷ 2 ∷ []
    | Doc.address a ↦ 0 ∷ 3 ∷ []
  ];
  parse = λ bytes. elim bytes [
    | [] ↦ none
    | i ∷ rest ↦ elim rest [
      | [] ↦ some (Doc.chunk (chunk_of identity_digest "s" "f" "t" i (block_at content k i)))
      | tag ∷ _ ↦ elim tag [
        | zero ↦ some (Doc.request offer)
        | suc n ↦ elim n [ zero ↦ some (Doc.verify verification) | suc _ ↦ some (Doc.text "s") ]
      ]
    ]
  ];
  to_request_send = Doc.request;
  from_request_send = elim [ Doc.request r ↦ some r | _ ↦ none ];
  to_send_chunk = Doc.chunk;
  from_send_chunk = elim [ Doc.chunk m ↦ some m | _ ↦ none ];
  to_verify_integrity = Doc.verify;
  from_verify_integrity = elim [ Doc.verify m ↦ some m | _ ↦ none ];
  to_cancel_send = Doc.text;
  from_cancel_send = elim [ Doc.text s ↦ some s | _ ↦ none ];
  to_cancel_wait = Doc.address;
  from_cancel_wait = elim [ Doc.address a ↦ some a | _ ↦ none ];
}

pub session_codec-chunk :
    (content : Bytes) (k i : ℕ)
    → ReadsChunk
        (session_codec content k)
        (chunk_of identity_digest "s" "f" "t" i (block_at content k i))
session_codec-chunk content k i = record { parsed = refl; read = refl }

pub session_codec-verify :
    (content : Bytes) (k : ℕ) → ReadsVerify (session_codec content k) verification
session_codec-verify content k = record { parsed = refl; read = refl }

abbrev pub request_line : RequestLine
request_line = record { version = 11; keep_alive = true }

abbrev pub working_io : ChunkIo
working_io = record { can_open = true; can_create = true; room = 2097152 }

abbrev pub file_of : ℕ → ℕ → List ℕ → ReceiveFileContext
file_of k total received = record {
  file_name = "a.txt";
  temp_file_path = "/d/f.part";
  file_token = "t";
  file_size = 3;
  chunk_size = k;
  total_chunks = total;
  received_chunks = received;
  file_checksum = "070809";
}

abbrev pub idle_controller : Assoc Bytes → ReceiveController
idle_controller disk = record {
  save_dir = "/d";
  has_callback = true;
  has_wait_condition = true;
  has_cancel_condition = true;
  session_status = ReceiveSessionStatus.idle;
  session_id = "";
  received_files = [];
  completed_file_count = 0;
  sender_ip = "";
  sender_port = 0;
  disk = disk;
  feedbacks = [];
}

-- The session "s" with the one file "f".
abbrev pub receiving : ReceiveFileContext → Assoc Bytes → ReceiveController
receiving file disk = record (idle_controller disk) {
  session_status = ReceiveSessionStatus.working;
  session_id = "s";
  received_files = ("f", file) ∷ [];
  sender_ip = "10.0.0.7";
  sender_port = 40000;
}

pub different : (a b : String) → str_eq a b ≡ false → a ≢ b
different a b h e = false≢true (sym h ∙ (eq_iff a b).1 e)

abbrev pub reading_io : VerifyIo
reading_io = record { can_read = true; can_rename = true }

abbrev pub entropy : Entropy
entropy = record {
  now = 1700000000;
  session_uuid = "uuid";
  random_part = λ i. "0123456789abcdef";
  hash = λ s. 1234567890;
}

-- A user who declines, while nothing else happens.
abbrev pub declined : Waiting
declined = record { entropy = entropy; waited = λ p c. (c, none) }
