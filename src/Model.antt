-- ===== src/Model.antt =====
-- src/include/core/model: the values that cross component borders. The records of dto/ travel as
-- JSON; feedback goes to the user interface.
use lan_send.Base.{ℕ, String, Bool, List}
use lan_send.FileType.{FileType}

-- model/session_status.h
pub data SessionStatus : Type 0 where
  idle waiting declined sending completed failed cancelled_by_sender cancelled_by_receiver :
      SessionStatus

-- model/device_info.h
pub record DeviceInfo : Type 0 where
  pub device_id : String
  pub hostname : String
  pub operating_system : String
  pub ip_address : String
  pub port : ℕ

-- model/dto/file_dto.h
pub record FileDto : Type 0 where
  pub file_id : String
  pub file_name : String
  pub file_size : ℕ
  pub chunk_size : ℕ
  pub total_chunks : ℕ
  pub file_checksum : String
  pub file_type : FileType

-- model/dto/request_send_dto.h
pub record RequestSendDto : Type 0 where
  pub device_info : DeviceInfo
  pub files : List FileDto

-- model/dto/request_send_response_dto.h
pub record RequestSendResponseDto : Type 0 where
  pub session_id : String
  pub file_tokens : List (String × String)

-- model/dto/send_chunk_dto.h
pub record SendChunkDto : Type 0 where
  pub session_id : String
  pub file_id : String
  pub file_token : String
  pub current_chunk_index : ℕ
  pub chunk_checksum : String

-- model/dto/verify_integrity_dto.h
pub record VerifyIntegrityDto : Type 0 where
  pub session_id : String
  pub file_id : String
  pub file_token : String

-- The text of a std::runtime_error, by the place that throws it and what std::format puts in.
pub data What : Type 0 where
  no_text : What
  literal : String → What
  session_id_mismatch : String → String → What
  chunk_checksum_mismatch : String → String → What
  create_temp_failed : String → String → What
  write_temp_failed : String → String → What
  invalid_file_token : String → String → What
  invalid_file_id : String → String → What
  not_completely_received : String → ℕ → ℕ → What
  file_checksum_mismatch : String → String → String → What
  invalid_session_id : String → What
  -- "{}:{}" of the reason and the body of a response
  bad_response : ℕ → What

-- model/feedback/*.h with the constructor named by model/feedback/feedback_type.h. A progress
-- percentage, a double, is kept as the two numbers whose quotient it is.
pub data Feedback : Type 0 where
  -- port, pin_code, auto_receive, save_dir
  settings : ℕ → String → Bool → String → Feedback
  found_device : DeviceInfo → Feedback
  lost_device : String → Feedback
  -- device_id, success, pin_code_error, network_error
  connect_device_result : String → Bool → Bool → Bool → Feedback
  network_error : Feedback
  recipient_accepted : String → Feedback
  recipient_declined : String → Feedback
  file_sending_progress : String → String → ℕ → ℕ → Feedback
  file_sending_completed : String → String → Feedback
  -- session_id, device_id, success, cancelled_by_receiver, error_message
  send_session_ended : String → String → Bool → Bool → What → Feedback
  request_receive_files : DeviceInfo → List String → Feedback
  file_receiving_progress : String → String → ℕ → ℕ → Feedback
  file_receiving_completed : String → String → Feedback
  -- session_id, success, cancelled_by_sender, error_message
  receive_session_ended : String → Bool → Bool → What → Feedback
