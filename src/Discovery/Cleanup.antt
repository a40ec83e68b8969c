-- ===== src/Discovery/Cleanup.antt =====
-- DiscoveryManager::cleanupDevices: which devices a round keeps.
use lan_send.Base.{
  ltb, ◌-◌, ℕ, String, Option, none, some, Bool, false, ◌≡◌, refl, ◌∙◌, str_eq, eq_iff,
  if◌then◌else◌, Assoc, lookup, erase, lookup-erase, [], ◌∷◌, arith, Bool-cases, inl, inr, ◌||◌,
  ◌&&◌,
}
use lan_send.Discovery.{
  DeviceEntry, DiscoveryManager, device_lost, is_expired, sweep, cleanup_devices,
}

-- std::unordered_map holds a key once.
abbrev pub DistinctKeys : Assoc DeviceEntry → Type 0
DistinctKeys [] = Unit {0}
DistinctKeys (entry ∷ m) = (lookup entry.0 m ≡ none) × DistinctKeys m

-- Whether some entry under this key is expired.
any_expired : ℕ → String → Assoc DeviceEntry → Bool
any_expired now id [] = false
any_expired now id (entry ∷ m) =
    (str_eq entry.0 id && is_expired now entry.1) || any_expired now id m

absent_fresh :
    (now : ℕ) (id : String) (m : Assoc DeviceEntry)
    → lookup id m ≡ none
    → any_expired now id m ≡ false
unfolding lookup any_expired
absent_fresh now id [] h = refl
absent_fresh now id (entry ∷ m) h = ground (arith, absent_fresh now id m)

abbrev if_expired : ℕ → Option DeviceEntry → Option DeviceEntry
if_expired now none = none
if_expired now (some e) = if is_expired now e then none else some e

-- The entry, if no more than ten seconds, in nanoseconds, have passed since the device was seen.
abbrev pub unless_expired : ℕ → Option DeviceEntry → Option DeviceEntry
unless_expired now none = none
unless_expired now (some e) = if ltb 10000000000 (now - e.last_seen) then none else some e

drop_expired :
    (now : ℕ) (id : String) (m : Assoc DeviceEntry)
    → DistinctKeys m
    → (if any_expired now id m then none else lookup id m) ≡ if_expired now (lookup id m)
unfolding lookup any_expired
drop_expired now id [] h = refl
drop_expired now id (entry ∷ m) h =
    ground (arith, eq_iff entry.0 id, drop_expired now id m h.1, absent_fresh now id m)

device_lost_table :
    (k : String) (m : DiscoveryManager)
    → (device_lost k m).discovered_devices ≡ m.discovered_devices
unfolding device_lost
device_lost_table k m = ground arith

lookup-sweep :
    (now : ℕ) (id : String) (entries : Assoc DeviceEntry) (m : DiscoveryManager)
    → lookup id (sweep now entries m).discovered_devices
      ≡ (if any_expired now id entries then none else lookup id m.discovered_devices)
unfolding sweep any_expired
lookup-sweep now id [] m = refl
lookup-sweep now id (entry ∷ entries) m = elim (Bool-cases (is_expired now entry.1)) [
  | inl e ↦
      let m' : DiscoveryManager = record m {
        discovered_devices = erase entry.0 m.discovered_devices;
      } in
      ground (
        arith,
        e,
        lookup-sweep now id entries (device_lost entry.0 m'),
        device_lost_table entry.0 m',
        lookup-erase entry.0 id m.discovered_devices,
        eq_iff entry.0 id,
      )
  | inr e ↦ ground (arith, e, lookup-sweep now id entries m)
]

expired_after : (now : ℕ) (o : Option DeviceEntry) → if_expired now o ≡ unless_expired now o
unfolding is_expired
expired_after now none = refl
expired_after now (some e) = refl

-- After a round of the cleanup a device is in the table exactly if it was there before and was seen in
-- the last ten seconds, and its entry is unchanged. The table holds no key twice.
pub lookup-cleanup_devices :
    (now : ℕ) (id : String) (m : DiscoveryManager)
    → DistinctKeys m.discovered_devices
    → lookup id (cleanup_devices now m).discovered_devices
      ≡ unless_expired now (lookup id m.discovered_devices)
unfolding cleanup_devices
lookup-cleanup_devices now id m h =
    lookup-sweep now id m.discovered_devices m
    ∙ drop_expired now id m.discovered_devices h
    ∙ expired_after now (lookup id m.discovered_devices)
