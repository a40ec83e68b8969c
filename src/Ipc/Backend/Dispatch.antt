-- ===== src/Ipc/Backend/Dispatch.antt =====
-- What an operation can change, as a case split of dispatch_operation.
use lan_send.Base.{String, some, ◌≡◌, refl, if_keeps, option_cases}
use lan_send.Model.{DeviceInfo}
use lan_send.Settings.{Settings}
use lan_send.Discovery.{get_device}
use lan_send.Ipc.Operation.{OperationType, Operation, OperationCodec}
use lan_send.Ipc.Client.{ClientCall}
use lan_send.Ipc.Backend.{
  IpcBackendService, client_call, send_files, cancel_wait_for_confirmation, cancel_send,
  connect_to_device, exit_app, modify_settings, dispatch_operation,
}

-- What `P` has to hold of, so that it holds after an operation that does not end the program.
pub record Keeps {ℓ} (P : IpcBackendService → Type ℓ) (b : IpcBackendService) : Type ℓ where
  pub same : P b
  pub stopped_waiting :
      (id : String) (d : DeviceInfo)
      → get_device id b.discovery_manager ≡ some d
      → P (client_call (ClientCall.cancel_wait_for_confirmation d.ip_address d.port) b)
  pub stopped_sending : (id : String) → P (client_call (ClientCall.cancel_send id) b)
  pub connected :
      (id pin : String) (d : DeviceInfo)
      → get_device id b.discovery_manager ≡ some d
      → P (client_call (ClientCall.connect_device pin d.ip_address d.port d.device_id) b)
  pub set : (s : Settings) → P (record b { settings = s })

module _ (json : OperationCodec) (P : IpcBackendService → Type 0) (b : IpcBackendService)
    (k : Keeps P b) where
  cases :
      (t : OperationType) (p : json.Doc)
      → (t ≡ OperationType.exit_app → P (exit_app b))
      → P (dispatch_operation json (record { type = t; payload = p }) b)
  unfolding dispatch_operation send_files cancel_wait_for_confirmation cancel_send connect_to_device
  cases OperationType.send_files p e =
      option_cases P (json.from_send_files p) _ _ k.same (λ files _.
        option_cases P (get_device files.device_id b.discovery_manager) _ _ k.same
          (λ d _. if_keeps P _ _ _ k.same (if_keeps P _ _ _ k.same k.same)))
  cases OperationType.cancel_wait_for_confirmation p e =
      option_cases P (json.from_cancel_wait p) _ _ k.same (λ id _.
        option_cases P (get_device id b.discovery_manager) _ _ k.same (k.stopped_waiting id))
  cases OperationType.cancel_send p e =
      option_cases P (json.from_cancel_send p) _ _ k.same (λ id _. k.stopped_sending id)
  cases OperationType.connect_to_device p e =
      option_cases P (json.from_connect_to_device p) _ _ k.same (λ asked _.
        option_cases P (get_device asked.device_id b.discovery_manager) _ _ k.same
          (k.connected asked.device_id asked.pin_code))
  cases OperationType.exit_app p e = e refl
  cases OperationType.modify_settings p e =
      option_cases P (json.from_modify_settings p) _ _ k.same
        (λ m _. k.set (modify_settings json m.key m.value b.settings))
  cases OperationType.cancel_receive p e = k.same
  cases OperationType.respond_to_receive_request p e = k.same

  pub dispatch_cases :
      (op : Operation json.Doc)
      → (op.type ≡ OperationType.exit_app → P (exit_app b))
      → P (dispatch_operation json op b)
  dispatch_cases op e = cases op.type op.payload e
