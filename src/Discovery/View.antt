-- ===== src/Discovery/View.antt =====
-- DiscoveryManager: what its two callbacks were told, beside its table.
use lan_send.Base.{
  ℕ, String, Option, none, some, Bool, true, false, ◌≡◌, refl, str_eq, eq_iff, if◌then◌else◌, Assoc,
  take, lookup, assign, erase, lookup-assign, lookup-erase, List, [], ◌∷◌, ◌++◌, arith, if_keeps,
  option_cases,
}
use lan_send.Message.{Bytes}
use lan_send.Model.{DeviceInfo}
use lan_send.Discovery.{
  DeviceEntry, recv_size, Notice, DiscoveryManager, DeviceCodec, device_found, device_lost,
  add_device, remove_device, is_expired, sweep, cleanup_devices, receive_datagram,
}

-- Whether a listener of the callbacks shows the device, after these notices.
unfoldable pub shown : String → List Notice → Bool → Bool
shown id [] before = before
shown id (Notice.found d ∷ notices) before =
    shown id notices (if str_eq d.device_id id then true else before)
shown id (Notice.lost d ∷ notices) before = shown id notices (if str_eq d id then false else before)

abbrev pub is_some : Option DeviceEntry → Bool
is_some none = false
is_some (some e) = true

-- Both callbacks are set, and whoever follows them shows exactly the devices of the table.
pub record IsShown (m : DiscoveryManager) : Type 0 where
  pub found_set : m.has_found_callback ≡ true
  pub lost_set : m.has_lost_callback ≡ true
  pub agrees : (id : String) → shown id m.notices false ≡ is_some (lookup id m.discovered_devices)

shown-append :
    (id : String) (xs ys : List Notice) (b : Bool)
    → shown id (xs ++ ys) b ≡ shown id ys (shown id xs b)
unfolding shown
shown-append id [] ys b = refl
shown-append id (Notice.found d ∷ xs) ys b = shown-append id xs ys _
shown-append id (Notice.lost d ∷ xs) ys b = shown-append id xs ys _

shown_found :
    (id : String) (d : DeviceInfo) (notices : List Notice)
    → shown id (notices ++ Notice.found d ∷ []) false
      ≡ (if str_eq d.device_id id then true else shown id notices false)
unfolding shown
shown_found id d notices = shown-append id notices (Notice.found d ∷ []) false

shown_lost :
    (id k : String) (notices : List Notice)
    → shown id (notices ++ Notice.lost k ∷ []) false
      ≡ (if str_eq k id then false else shown id notices false)
unfolding shown
shown_lost id k notices = shown-append id notices (Notice.lost k ∷ []) false

module _ (m : DiscoveryManager) (h : IsShown m) where
  new-IsShown :
      (d : DeviceInfo) (e : DeviceEntry)
      → IsShown (
          device_found d
            (record m { discovered_devices = assign d.device_id e m.discovered_devices }))
  unfolding device_found
  new-IsShown d e = rw h.found_set (record {
    found_set = refl;
    lost_set = h.lost_set;
    agrees = λ id. ground (
      arith,
      shown_found id d m.notices,
      lookup-assign d.device_id id e m.discovered_devices,
      h.agrees id,
    );
  })

  -- A known device that is seen again stays shown.
  old-IsShown :
      (k : String) (e e' : DeviceEntry)
      → lookup k m.discovered_devices ≡ some e
      → IsShown (record m { discovered_devices = assign k e' m.discovered_devices })
  old-IsShown k e e' known = record {
    found_set = h.found_set;
    lost_set = h.lost_set;
    agrees = λ id. ground (
      arith,
      known,
      eq_iff k id,
      lookup-assign k id e' m.discovered_devices,
      h.agrees id,
      h.agrees k,
    );
  }

  pub drop-IsShown :
      (k : String)
      → IsShown (device_lost k (record m { discovered_devices = erase k m.discovered_devices }))
  unfolding device_lost
  drop-IsShown k = rw h.lost_set (record {
    found_set = h.found_set;
    lost_set = refl;
    agrees = λ id.
        ground
          (arith, shown_lost id k m.notices, lookup-erase k id m.discovered_devices, h.agrees id);
  })

  add_device-IsShown : (now : ℕ) (d : DeviceInfo) → IsShown (add_device now d m)
  unfolding add_device
  add_device-IsShown now d =
      option_cases IsShown (lookup d.device_id m.discovered_devices) _ _
        (new-IsShown d (record { device = d; last_seen = now }))
        (λ entry known. old-IsShown d.device_id entry (record entry { last_seen = now }) known)

  remove_device-IsShown : (k : String) → IsShown (remove_device k m)
  unfolding remove_device
  remove_device-IsShown k =
      option_cases IsShown (lookup k m.discovered_devices) _ _ h (λ entry known. drop-IsShown k)

sweep-IsShown :
    (now : ℕ) (entries : Assoc DeviceEntry) (m : DiscoveryManager)
    → IsShown m
    → IsShown (sweep now entries m)
unfolding sweep
sweep-IsShown now [] m h = h
sweep-IsShown now (entry ∷ entries) m h =
    sweep-IsShown now entries _
      (if_keeps IsShown (is_expired now entry.1) _ _ (drop-IsShown m h entry.0) h)

module _ (json : DeviceCodec) where
  -- What happens to the table: a datagram, a removal by another component, or a round of the cleanup.
  pub data Event : Type 0 where
    datagram : ℕ → Bytes → Event
    removal : String → Event
    round : ℕ → Event

  unfoldable pub happens : Event → DiscoveryManager → DiscoveryManager
  happens (datagram now payload) m = receive_datagram json now payload m
  happens (removal id) m = remove_device id m
  happens (round now) m = cleanup_devices now m

  unfoldable pub run : List Event → DiscoveryManager → DiscoveryManager
  run [] m = m
  run (e ∷ es) m = run es (happens e m)

  receive_datagram-IsShown :
      (now : ℕ) (payload : Bytes) (m : DiscoveryManager)
      → IsShown m
      → IsShown (receive_datagram json now payload m)
  unfolding receive_datagram
  receive_datagram-IsShown now payload m h =
      if_keeps IsShown m.listening _ _
        (option_cases IsShown (json.parse (take recv_size payload)) _ _ h (λ doc _.
          option_cases IsShown (json.from_device doc) _ _
            (record { found_set = h.found_set; lost_set = h.lost_set; agrees = h.agrees })
            (λ d _.
              if_keeps IsShown (str_eq d.device_id m.device_id) _ _ h
                (add_device-IsShown m h now d))))
        h

  happens-IsShown : (e : Event) (m : DiscoveryManager) → IsShown m → IsShown (happens e m)
  unfolding happens cleanup_devices
  happens-IsShown (datagram now payload) m h = receive_datagram-IsShown now payload m h
  happens-IsShown (removal id) m h = remove_device-IsShown m h id
  happens-IsShown (round now) m h = sweep-IsShown now m.discovered_devices m h

  -- Whoever follows the two callbacks shows exactly the devices that stand in the table, after any
  -- sequence of datagrams, removals and cleanup rounds, if that was so before and both callbacks are
  -- set.
  pub run-IsShown :
      (events : List Event) (m : DiscoveryManager) → IsShown m → IsShown (run events m)
  unfolding run
  run-IsShown [] m h = h
  run-IsShown (e ∷ es) m h = run-IsShown es (happens e m) (happens-IsShown e m h)
