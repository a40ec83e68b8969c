-- ===== src/Ipc/Backend/Addressed.antt =====
-- IpcBackendService: whom it calls.
use lan_send.Base.{
  ℕ, zero, suc, String, some, ◌≡◌, refl, if_keeps, option_cases, List, [], ◌∷◌, ◌++◌,
}
use lan_send.Model.{DeviceInfo}
use lan_send.Discovery.{DiscoveryManager, get_device, stop as stop_discovery}
use lan_send.Ipc.Operation.{OperationCodec}
use lan_send.Ipc.Client.{ClientCall}
use lan_send.Ipc.EventStream.{IpcEventStream, poll_active_operation}
use lan_send.Ipc.Backend.{IpcBackendService, client_call, exit_app, stop, round, rounds}
use lan_send.Ipc.Backend.Dispatch.{dispatch_cases}

-- A call that sends no files, and goes to the address under which the table knows a device.
abbrev pub IsAddressed : DiscoveryManager → ClientCall → Type 0
IsAddressed m (ClientCall.send_files ip port paths) = ⊥
IsAddressed m (ClientCall.cancel_send id) = Unit {0}
IsAddressed m (ClientCall.cancel_wait_for_confirmation ip port) =
    (id : String) × (d : DeviceInfo) × (get_device id m ≡ some d)
    × (d.ip_address ≡ ip)
    × (d.port ≡ port)
IsAddressed m (ClientCall.connect_device pin ip port device_id) =
    (id : String) × (d : DeviceInfo) × (get_device id m ≡ some d)
    × (d.ip_address ≡ ip)
    × (d.port ≡ port)
    × (d.device_id ≡ device_id)

abbrev pub AllAddressed : DiscoveryManager → List ClientCall → Type 0
AllAddressed m [] = Unit {0}
AllAddressed m (c ∷ cs) = IsAddressed m c × AllAddressed m cs

snoc-AllAddressed :
    (m : DiscoveryManager) (cs : List ClientCall) (c : ClientCall)
    → AllAddressed m cs
    → IsAddressed m c
    → AllAddressed m (cs ++ c ∷ [])
snoc-AllAddressed m [] c hs h = (h, tt)
snoc-AllAddressed m (c' ∷ cs) c hs h = (hs.0, snoc-AllAddressed m cs c hs.1 h)

abbrev pub CallsAddressed : IpcBackendService → Type 0
CallsAddressed b = AllAddressed b.discovery_manager b.client_calls

-- The table of a stopped manager answers as before.
stop-AllAddressed :
    (m : DiscoveryManager) (cs : List ClientCall)
    → AllAddressed m cs
    → AllAddressed (stop_discovery m) cs
unfolding get_device stop_discovery
stop-AllAddressed m [] hs = tt
stop-AllAddressed m (ClientCall.send_files ip port paths ∷ cs) hs = absurd hs.0
stop-AllAddressed m (ClientCall.cancel_send id ∷ cs) hs = (hs.0, stop-AllAddressed m cs hs.1)
stop-AllAddressed m (ClientCall.cancel_wait_for_confirmation ip port ∷ cs) hs =
    (hs.0, stop-AllAddressed m cs hs.1)
stop-AllAddressed m (ClientCall.connect_device pin ip port device_id ∷ cs) hs =
    (hs.0, stop-AllAddressed m cs hs.1)

exit-addressed : (b : IpcBackendService) → CallsAddressed b → CallsAddressed (exit_app b)
unfolding exit_app stop
exit-addressed b h =
    let stopped = stop-AllAddressed b.discovery_manager b.client_calls h in
    if_keeps CallsAddressed b.has_exit_callback _ _ stopped stopped

module _ (json : OperationCodec) where
  round-addressed :
      (events : IpcEventStream json.Doc) (b : IpcBackendService)
      → CallsAddressed b
      → CallsAddressed (round json (events, b)).1
  unfolding round client_call
  round-addressed events b h =
      let P = λ (s : IpcEventStream json.Doc × IpcBackendService). CallsAddressed s.1 in
      let calls = snoc-AllAddressed b.discovery_manager b.client_calls in
      if_keeps P b.is_running _ _
        (option_cases P (poll_active_operation events).0 _ _ h (λ op _.
          dispatch_cases json CallsAddressed b
            (record {
              same = h;
              stopped_waiting = λ id d known. calls _ h (id, d, known, refl, refl);
              stopped_sending = λ id. calls _ h tt;
              connected = λ id pin d known. calls _ h (id, d, known, refl, refl, refl);
              set = λ s. h;
            })
            op (λ _. exit-addressed b h)))
        h

  -- Whatever the user asks for, in however many rounds: if so far every call of the client went to an
  -- address under which the table of devices knows a device, or cancelled a session, and none sent
  -- files, then that is so of all calls. So an operation never sends a file.
  pub rounds-addressed :
      (k : ℕ) (events : IpcEventStream json.Doc) (b : IpcBackendService)
      → CallsAddressed b
      → CallsAddressed (rounds json k (events, b)).1
  unfolding rounds
  rounds-addressed zero events b h = h
  rounds-addressed (suc k) events b h =
      rounds-addressed k (round json (events, b)).0 (round json (events, b)).1
        (round-addressed events b h)
