-- ===== src/Discovery/Listening.antt =====
-- DiscoveryManager::listener: what it makes of announcements.
use Prim.Native.String.append
use text.Mathlib.TextLemmas.{append-nil as <>_nil}
use lan_send.Base.{
  ℕ, String, ◌<>◌, Option, none, some, true, false, ◌≡◌, ◌≢◌, refl, sym, ◌∙◌, ap, str_eq, eq_iff,
  lookup, take, arith, to_string, scan, scan-to_string, is_empty, Bool-cases, option_cases,
  if_keeps, starts_with_digit, false≢true, inl, inr, lookup-assign_same,
}
use lan_send.Message.{Bytes}
use lan_send.Model.{DeviceInfo}
use lan_send.Discovery.{
  DeviceEntry, recv_size, device_found, DiscoveryManager, DeviceCodec, receive_datagram,
  generate_device_id, local_device_id, add_device,
}

own_name :
    (hash timestamp random_num : ℕ) → local_device_id hash ≢ generate_device_id timestamp random_num
unfolding local_device_id generate_device_id
own_name hash timestamp random_num e =
    let tail = "_" <> to_string random_num in
    let no_digit : starts_with_digit tail ≡ false = rw append.cons in
    let number : scan (to_string hash) 0 ≡ (hash, "") =
      ap (λ (s : String). scan s 0) (sym (<>_nil (to_string hash))) ∙ scan-to_string hash "" refl in
    let both : (hash, "") ≡ (timestamp, tail) =
      sym number ∙ ap (λ (s : String). scan s 0) e ∙ scan-to_string timestamp tail no_digit in
    let rest : true ≡ is_empty tail = ap (λ (p : ℕ × String). is_empty p.1) both in
    let full : is_empty tail ≡ false = rw append.cons in false≢true (sym (rest ∙ full))

abbrev pub seen_at : Option DeviceEntry → Option ℕ
seen_at none = none
seen_at (some e) = some e.last_seen

add_device-seen :
    (now : ℕ) (d : DeviceInfo) (m : DiscoveryManager)
    → seen_at (lookup d.device_id (add_device now d m).discovered_devices) ≡ some now
unfolding add_device device_found
add_device-seen now d m =
    let seen =
      λ (m' : DiscoveryManager). seen_at (lookup d.device_id m'.discovered_devices) ≡ some now in
    let written = λ (e : DeviceEntry). lookup-assign_same d.device_id e m.discovered_devices in
    option_cases seen (lookup d.device_id m.discovered_devices) _ _
      (if_keeps seen m.has_found_callback _ _
        (ap seen_at (written (record { device = d; last_seen = now })))
        (ap seen_at (written (record { device = d; last_seen = now }))))
      (λ entry _. ap seen_at (written (record entry { last_seen = now })))

module _ (json : DeviceCodec) (now : ℕ) (payload : Bytes) (m : DiscoveryManager) {doc : json.Doc}
    (parsed : json.parse (take recv_size payload) ≡ some doc) where
  -- A listening manager takes the announcement of its own device for a device that it has just seen,
  -- whatever the hash in the announcement, and the time and the random number in its own identifier:
  -- the two identifiers are built in different ways and never agree.
  pub own_announcement_seen :
      (d : DeviceInfo) (hash timestamp random_num : ℕ)
      → json.from_device doc ≡ some d
      → d.device_id ≡ local_device_id hash
      → m.device_id ≡ generate_device_id timestamp random_num
      → m.listening ≡ true
      → seen_at (lookup d.device_id (receive_datagram json now payload m).discovered_devices)
        ≡ some now
  unfolding receive_datagram
  own_announcement_seen d hash timestamp random_num device named own on =
      let other : str_eq d.device_id m.device_id ≡ false =
        elim (Bool-cases (str_eq d.device_id m.device_id)) [
          | inl same ↦ absurd (
              own_name hash timestamp random_num
                (sym named ∙ (eq_iff d.device_id m.device_id).0 same ∙ own))
          | inr apart ↦ apart
        ] in
      rw (on, parsed, device, other) (add_device-seen now d m)

  -- After a datagram that is JSON but describes no device, no later datagram changes anything.
  pub receive_datagram-deaf :
      (now' : ℕ) (payload' : Bytes)
      → json.from_device doc ≡ none
      → receive_datagram json now' payload' (receive_datagram json now payload m)
        ≡ receive_datagram json now payload m
  unfolding receive_datagram
  receive_datagram-deaf now' payload' no_device = ground (arith, parsed, no_device)
