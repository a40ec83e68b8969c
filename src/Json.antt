-- ===== src/Json.antt =====
-- nlohmann::json, a library: documents, their text, and the conversions that
-- NLOHMANN_DEFINE_TYPE_INTRUSIVE derives for the records of src/include/core/model/dto. A reading
-- is `none` where json::parse or from_json throws.
use lan_send.Base.{ℕ, String, Option, none, some, ◌≡◌}
use lan_send.Message.{Bytes}
use lan_send.Model.{RequestSendDto, SendChunkDto, VerifyIntegrityDto}

pub record Codec : Type 1 where
  pub Doc : Type 0
  pub dump : Doc → Bytes
  pub parse : Bytes → Option Doc
  pub to_request_send : RequestSendDto → Doc
  pub from_request_send : Doc → Option RequestSendDto
  pub to_send_chunk : SendChunkDto → Doc
  pub from_send_chunk : Doc → Option SendChunkDto
  pub to_verify_integrity : VerifyIntegrityDto → Doc
  pub from_verify_integrity : Doc → Option VerifyIntegrityDto
  -- {"session_id": …}
  pub to_cancel_send : String → Doc
  pub from_cancel_send : Doc → Option String
  -- {"ip": …, "port": …}
  pub to_cancel_wait : String × ℕ → Doc
  pub from_cancel_wait : Doc → Option (String × ℕ)

-- The document that is made of `a` is parsed again, and `a` is read from it.
pub record Reads {ℓ} {A : Type ℓ} (json : Codec) (to : A → json.Doc) (from : json.Doc → Option A)
    (a : A) : Type ℓ where
  pub parsed : json.parse (json.dump (to a)) ≡ some (to a)
  pub read : from (to a) ≡ some a

abbrev pub ReadsChunk : Codec → SendChunkDto → Type 0
ReadsChunk json = Reads json json.to_send_chunk json.from_send_chunk

abbrev pub ReadsVerify : Codec → VerifyIntegrityDto → Type 0
ReadsVerify json = Reads json json.to_verify_integrity json.from_verify_integrity

-- json::parse and then from_json, in one try block.
abbrev pub read_with {ℓ} :
    {Doc : Type 0} {A : Type ℓ} → (Bytes → Option Doc) → (Doc → Option A) → Bytes → Option A
read_with parse from body = elim (parse body) [ none ↦ none | some doc ↦ from doc ]
