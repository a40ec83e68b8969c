-- ===== src/Ipc/Backend.antt =====
-- src/ipc/ipc_backend_service.cc: the loop that takes the operations of the user off the queue and
-- hands them to the components. The calls of the client service are kept in the record, in order; the
-- queue, which no operation touches, stands beside it.
pub mod Dispatch
pub mod Rounds
pub mod Addressed
use lan_send.Base.{
  ℕ, zero, suc, ◌+◌, String, Option, none, some, Bool, true, false, ltb, str_eq, if◌then◌else◌,
  is_nil, length, List, [], ◌∷◌, ◌++◌,
}
use lan_send.Model.{DeviceInfo}
use lan_send.Settings.{Settings, from_config_settings}
use lan_send.Discovery.{DiscoveryManager, get_device, stop as stop_discovery}
use lan_send.Ipc.Operation.{OperationType, Operation, SendFiles, OperationCodec}
use lan_send.Ipc.Client.{ClientCall}
use lan_send.Ipc.EventStream.{IpcEventStream, post_feedback, poll_active_operation}

pub record IpcBackendService : Type 0 where
  pub discovery_manager : DiscoveryManager
  pub settings : Settings
  pub client_calls : List ClientCall
  pub is_running : Bool
  -- HttpServer::running_
  pub server_running : Bool
  -- io_context::stop was called
  pub io_stopped : Bool
  -- whether exit_app_callback_ is set, and how often it was called
  pub has_exit_callback : Bool
  pub exits : ℕ

unfoldable pub client_call : ClientCall → IpcBackendService → IpcBackendService
client_call c b = record b { client_calls = b.client_calls ++ c ∷ [] }

-- The call of the client stands behind the `return` of the last test, so no list of files reaches it.
unfoldable pub send_files : SendFiles → IpcBackendService → IpcBackendService
send_files send_file b = elim (get_device send_file.device_id b.discovery_manager) [
  | none ↦ b
  | some device ↦
      if is_nil send_file.file_paths
      then b
      else if ltb 10 (length send_file.file_paths)
      then b
      else b
]

unfoldable pub cancel_wait_for_confirmation : String → IpcBackendService → IpcBackendService
unfolding client_call
cancel_wait_for_confirmation device_id b = elim (get_device device_id b.discovery_manager) [
  | none ↦ b
  | some device ↦
      client_call (ClientCall.cancel_wait_for_confirmation device.ip_address device.port) b
]

unfoldable pub cancel_send : String → IpcBackendService → IpcBackendService
unfolding client_call
cancel_send session_id b = client_call (ClientCall.cancel_send session_id) b

unfoldable pub connect_to_device : String → String → IpcBackendService → IpcBackendService
unfolding client_call
connect_to_device device_id pin_code b = elim (get_device device_id b.discovery_manager) [
  | none ↦ b
  | some device ↦
      client_call
        (ClientCall.connect_device pin_code device.ip_address device.port device.device_id) b
]

unfoldable pub stop : IpcBackendService → IpcBackendService
stop b = record b {
  discovery_manager = stop_discovery b.discovery_manager;
  server_running = false;
  is_running = false;
}

unfoldable pub exit_app : IpcBackendService → IpcBackendService
unfolding stop
exit_app b =
    let stopped = record (stop b) { io_stopped = true } in
    if b.has_exit_callback then record stopped { exits = b.exits + 1 } else stopped

-- Start, before the loop is spawned: the interface is told the settings.
unfoldable pub start : {Doc : Type 0} → IpcBackendService → IpcEventStream Doc → IpcEventStream Doc
start b events = post_feedback (from_config_settings b.settings) events

module _ (json : OperationCodec) where
  unfoldable pub modify_settings : String → json.Doc → Settings → Settings
  modify_settings key value s =
      if str_eq key "port"
      then elim (json.to_port value) [ none ↦ s | some port ↦ record s { port = port } ]
      else if str_eq key "pin-code"
      then elim (json.to_text value) [ none ↦ s | some pin ↦ record s { pin_code = pin } ]
      else if str_eq key "auto-receive"
      then elim (json.to_bool value) [ none ↦ s | some auto ↦ record s { auto_receive = auto } ]
      else if str_eq key "save-dir"
      then elim (json.to_text value) [ none ↦ s | some dir ↦ record s { save_dir = dir } ]
      else s

  unfoldable pub dispatch_operation : Operation json.Doc → IpcBackendService → IpcBackendService
  unfolding send_files cancel_wait_for_confirmation cancel_send connect_to_device exit_app
      modify_settings
  dispatch_operation op b = elim op.type [
    | OperationType.send_files ↦ elim (json.from_send_files op.payload) [
      | none ↦ b
      | some data_ ↦ send_files data_ b
    ]
    | OperationType.cancel_wait_for_confirmation ↦ elim (json.from_cancel_wait op.payload) [
      | none ↦ b
      | some device_id ↦ cancel_wait_for_confirmation device_id b
    ]
    | OperationType.cancel_send ↦ elim (json.from_cancel_send op.payload) [
      | none ↦ b
      | some session_id ↦ cancel_send session_id b
    ]
    | OperationType.connect_to_device ↦ elim (json.from_connect_to_device op.payload) [
      | none ↦ b
      | some asked ↦ connect_to_device asked.device_id asked.pin_code b
    ]
    | OperationType.exit_app ↦ exit_app b
    | OperationType.modify_settings ↦ elim (json.from_modify_settings op.payload) [
      | none ↦ b
      | some m ↦ record b { settings = modify_settings m.key m.value b.settings }
    ]
    | OperationType.cancel_receive ↦ b
    | OperationType.respond_to_receive_request ↦ b
  ]

  -- One round of the loop of `start`.
  unfoldable pub round :
      IpcEventStream json.Doc × IpcBackendService → IpcEventStream json.Doc × IpcBackendService
  unfolding dispatch_operation poll_active_operation
  round (events, b) =
      if b.is_running
      then elim (poll_active_operation events).0 [
        | none ↦ (events, b)
        | some op ↦ ((poll_active_operation events).1, dispatch_operation op b)
      ]
      else (events, b)

  unfoldable pub rounds :
      ℕ → IpcEventStream json.Doc × IpcBackendService → IpcEventStream json.Doc × IpcBackendService
  rounds zero s = s
  rounds (suc n) s = rounds n (round s)
