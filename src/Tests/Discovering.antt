-- ===== src/Tests/Discovering.antt =====
-- Announcements that come and go.
use lan_send.Base.{ℕ, zero, suc, ◌*◌, ◌^◌, none, some, true, ◌≡◌, refl, Assoc, lookup, [], ◌∷◌}
use lan_send.Model.{DeviceInfo}
use lan_send.Tests.Toy.{device}
use lan_send.Discovery.{
  DeviceEntry, DiscoveryManager, DeviceCodec, receive_datagram, cleanup_devices, local_device_id,
  generate_device_id,
}
use lan_send.Discovery.View.{IsShown, Event, run, shown, run-IsShown}
use lan_send.Discovery.Cleanup.{lookup-cleanup_devices, unless_expired}
use lan_send.Discovery.Listening.{own_announcement_seen, receive_datagram-deaf, seen_at}

-- The empty datagram is no JSON, and that of one byte is JSON that describes no device.
abbrev announcements : DeviceInfo → DeviceCodec
announcements d = record {
  Doc = ℕ;
  dump = λ n. n ∷ [];
  parse = elim [ [] ↦ none | n ∷ ns ↦ some (elim ns [ [] ↦ 0 | _ ∷ _ ↦ 1 ]) ];
  to_device = λ d'. 1;
  from_device = elim [ zero ↦ none | suc n ↦ some d ];
}

abbrev manager : Assoc DeviceEntry → DiscoveryManager
manager devices = record {
  device_id = generate_device_id 1700000000000 4711;
  discovered_devices = devices;
  has_found_callback = true;
  has_lost_callback = true;
  notices = [];
  listening = true;
}

abbrev old_entry : DeviceEntry
old_entry = record { device = device; last_seen = 5 }

empty-IsShown : IsShown (manager [])
unfolding shown lookup
empty-IsShown = record { found_set = refl; lost_set = refl; agrees = λ id. refl }

run-IsShown_example : IsShown (
    run
      (announcements device)
      (Event.datagram 5 (7 ∷ 7 ∷ [])
        ∷ Event.datagram 6 []
        ∷ Event.round (20 * 10 ^ 9)
        ∷ Event.removal "dev"
        ∷ [])
      (manager []))
run-IsShown_example =
    run-IsShown (announcements device)
      (Event.datagram 5 (7 ∷ 7 ∷ [])
        ∷ Event.datagram 6 []
        ∷ Event.round (20 * 10 ^ 9)
        ∷ Event.removal "dev"
        ∷ [])
      (manager []) empty-IsShown

lookup-cleanup_devices_example :
    lookup "dev"
      (cleanup_devices (20 * 10 ^ 9) (manager (("dev", old_entry) ∷ []))).discovered_devices
    ≡ unless_expired
        (20 * 10 ^ 9)
        (lookup "dev" (manager (("dev", old_entry) ∷ [])).discovered_devices)
unfolding lookup
lookup-cleanup_devices_example =
    lookup-cleanup_devices (20 * 10 ^ 9) "dev" (manager (("dev", old_entry) ∷ [])) (refl, tt)

abbrev own_device : DeviceInfo
own_device = record device { device_id = local_device_id 42 }

own_announcement_seen_example :
    seen_at (
      lookup own_device.device_id
        (receive_datagram
          (announcements own_device)
          9
          (7 ∷ 7 ∷ [])
          (manager [])).discovered_devices)
    ≡ some 9
own_announcement_seen_example =
    own_announcement_seen (announcements own_device) 9 (7 ∷ 7 ∷ []) (manager []) refl own_device 42
      1700000000000 4711 refl refl refl refl

receive_datagram-deaf_example :
    receive_datagram
      (announcements device)
      10
      (7 ∷ 7 ∷ [])
      (receive_datagram (announcements device) 9 (7 ∷ []) (manager []))
    ≡ receive_datagram (announcements device) 9 (7 ∷ []) (manager [])
receive_datagram-deaf_example =
    receive_datagram-deaf (announcements device) 9 (7 ∷ []) (manager []) refl 10 (7 ∷ 7 ∷ []) refl
