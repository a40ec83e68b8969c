-- ===== src/Ipc/Operation.antt =====
-- src/include/ipc/model: the operations of the user, as the interface sends them.
use lan_send.Base.{ℕ, String, Option, Bool, List}

-- operation_type.h
pub data OperationType : Type 0 where
  send_files cancel_wait_for_confirmation cancel_send respond_to_receive_request cancel_receive :
      OperationType
  modify_settings connect_to_device exit_app : OperationType

-- operation.h: `data` is a JSON document.
pub record Operation (Doc : Type 0) : Type 0 where
  pub type : OperationType
  pub payload : Doc

-- send_files.h
pub record SendFiles : Type 0 where
  pub device_id : String
  pub file_paths : List String

-- confirm_receive.h
pub record ConfirmReceive : Type 0 where
  pub accepted : Bool
  pub accepted_files : Option (List String)

-- connect_to_device.h
pub record ConnectToDevice : Type 0 where
  pub device_id : String
  pub pin_code : String

-- modify_settings.h
pub record ModifySettings (Doc : Type 0) : Type 0 where
  pub key : String
  pub value : Doc

-- nlohmann::json, for the operations: a conversion is `none` where it throws.
pub record OperationCodec : Type 1 where
  pub Doc : Type 0
  pub from_send_files : Doc → Option SendFiles
  -- the one field of cancel_wait_for_confirmation.h, and of cancel_send.h
  pub from_cancel_wait : Doc → Option String
  pub from_cancel_send : Doc → Option String
  pub from_confirm_receive : Doc → Option ConfirmReceive
  pub from_connect_to_device : Doc → Option ConnectToDevice
  pub from_modify_settings : Doc → Option (ModifySettings Doc)
  -- get<std::uint16_t>, get<std::string>, get<bool> of a value
  pub to_port : Doc → Option ℕ
  pub to_text : Doc → Option String
  pub to_bool : Doc → Option Bool
