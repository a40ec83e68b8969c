-- ===== src/Discovery.antt =====
-- src/core/network/discovery/discovery_manager.{h,cc}: the table of the devices that announce
-- themselves by UDP broadcasts. The calls of the two callbacks are kept in the record, in order.
pub mod View
pub mod Cleanup
pub mod Listening
use lan_send.Base.{
  ℕ, ◌+◌, ◌-◌, ◌*◌, ◌^◌, String, ◌<>◌, Option, none, some, Bool, true, false, ltb, str_eq,
  to_string, if◌then◌else◌, Assoc, lookup, assign, erase, List, [], ◌∷◌, ◌++◌, take,
}
use lan_send.Message.{Bytes}
use lan_send.Model.{DeviceInfo}

-- Times are ticks of std::chrono::system_clock, nanoseconds.
pub record DeviceEntry : Type 0 where
  pub device : DeviceInfo
  pub last_seen : ℕ

-- A call of device_found_callback_ or of device_lost_callback_.
pub data Notice : Type 0 where
  found : DeviceInfo → Notice
  lost : String → Notice

pub record DiscoveryManager : Type 0 where
  pub device_id : String
  pub discovered_devices : Assoc DeviceEntry
  -- whether the callbacks are set
  pub has_found_callback : Bool
  pub has_lost_callback : Bool
  pub notices : List Notice
  -- whether the coroutine `listener` runs
  pub listening : Bool

unfoldable pub device_found : DeviceInfo → DiscoveryManager → DiscoveryManager
device_found device m =
    if m.has_found_callback then record m { notices = m.notices ++ Notice.found device ∷ [] } else m

unfoldable pub device_lost : String → DiscoveryManager → DiscoveryManager
device_lost device_id m =
    if m.has_lost_callback
    then record m { notices = m.notices ++ Notice.lost device_id ∷ [] }
    else m

-- A known device is only seen again: its address is not updated.
unfoldable pub add_device : ℕ → DeviceInfo → DiscoveryManager → DiscoveryManager
unfolding device_found
add_device now device m = elim (lookup device.device_id m.discovered_devices) [
  | none ↦ device_found device (record m {
    discovered_devices =
        assign device.device_id (record { device = device; last_seen = now }) m.discovered_devices;
  })
  | some entry ↦ record m {
    discovered_devices =
        assign device.device_id (record entry { last_seen = now }) m.discovered_devices;
  }
]

unfoldable pub remove_device : String → DiscoveryManager → DiscoveryManager
unfolding device_lost
remove_device device_id m = elim (lookup device_id m.discovered_devices) [
  | none ↦ m
  | some entry ↦
      device_lost device_id (record m { discovered_devices = erase device_id m.discovered_devices })
]

unfoldable pub get_device : String → DiscoveryManager → Option DeviceInfo
get_device device_id m = elim (lookup device_id m.discovered_devices) [
  | none ↦ none
  | some entry ↦ some entry.device
]

-- std::chrono::seconds(10) of cleanupDevices
abbrev pub timeout_duration : ℕ
timeout_duration = 10 * 10 ^ 9

-- now - last_seen > timeout_duration, where a clock that was set back counts as no time.
unfoldable pub is_expired : ℕ → DeviceEntry → Bool
is_expired now entry = ltb timeout_duration (now - entry.last_seen)

-- The loop over the entries: an expired one is erased and its loss is told.
unfoldable pub sweep : ℕ → Assoc DeviceEntry → DiscoveryManager → DiscoveryManager
unfolding device_lost
sweep now [] m = m
sweep now (entry ∷ entries) m = sweep now entries (
    if is_expired now entry.1
    then device_lost entry.0 (record m { discovered_devices = erase entry.0 m.discovered_devices })
    else m)

-- One round of cleanupDevices.
unfoldable pub cleanup_devices : ℕ → DiscoveryManager → DiscoveryManager
cleanup_devices now m = sweep now m.discovered_devices m

-- Stop closes the sockets, which ends the coroutines.
unfoldable pub stop : DiscoveryManager → DiscoveryManager
stop m = record m { listening = false }

-- generateDeviceId: milliseconds and a random number.
unfoldable pub generate_device_id : ℕ → ℕ → String
generate_device_id timestamp random_num = to_string timestamp <> ("_" <> to_string random_num)

-- DeviceInfo::LocalDeviceInfo: the identifier that a device announces, a std::hash.
unfoldable pub local_device_id : ℕ → String
local_device_id hash = to_string hash

-- nlohmann::json, for the announcements: json::parse and get<DeviceInfo>, `none` where they throw.
pub record DeviceCodec : Type 1 where
  pub Doc : Type 0
  pub dump : Doc → Bytes
  pub parse : Bytes → Option Doc
  pub to_device : DeviceInfo → Doc
  pub from_device : Doc → Option DeviceInfo

-- buffer_size of listener: what is longer is cut off
abbrev pub recv_size : ℕ
recv_size = 1024

module _ (json : DeviceCodec) where
  -- A datagram that arrives at the listener. A parse error is caught within the loop; any other
  -- exception leaves the loop, and the coroutine ends.
  unfoldable pub receive_datagram : ℕ → Bytes → DiscoveryManager → DiscoveryManager
  receive_datagram now payload m =
      if m.listening
      then elim (json.parse (take recv_size payload)) [
        | none ↦ m
        | some doc ↦ elim (json.from_device doc) [
          | none ↦ record m { listening = false }
          | some device ↦ if str_eq device.device_id m.device_id then m else add_device now device m
        ]
      ]
      else m
