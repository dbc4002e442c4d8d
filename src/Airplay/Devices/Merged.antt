-- ===== src/Airplay/Devices/Merged.antt =====
-- Of all services of one receiver the best is kept, in whatever order they come.
use harmonia_server.Prelude.{
  ℕ, suc, ◌+◌, ◌*◌, max, ◌≡◌, refl, sym, ap, ◌∙◌, inl, inr, Bool, true, false, ◌||◌, List, [], ◌∷◌,
  arith, if◌then◌else◌, ◌==◌, Bool-cases,
}
use harmonia_server.Prelude.Runes.{same_runes, same_runes→eq, same_runes_comm, text_of_key}
use harmonia_server.Airplay.Devices.{
  Device, Service, is_supported, is_airplay_2, prefer_device, merge_device, add_service,
  merge_services, service_device, is_blank, insert_device, sort_devices, devices_from_services,
  name_before,
}

-- Supported devices before others, and AirPlay 2 before the rest.
abbrev one_if : Bool → ℕ
one_if true = 1
one_if false = 0

abbrev pub rank : Device → ℕ
rank d = 2 * one_if (is_supported d) + one_if (is_airplay_2 d.kind)

abbrev pub counted : Bool → ℕ → ℕ
counted true n = suc n
counted false n = 0

counted_max : (b : Bool) (m n : ℕ) → counted b (max m n) ≡ max (counted b m) (counted b n)
counted_max true m n = omega arith
counted_max false m n = omega arith

-- One more than the rank of a device with the id.
abbrev pub own_rank : List ℕ → Device → ℕ
own_rank id d = counted (same_runes d.id id) (rank d)

abbrev pub best_rank : List ℕ → List Device → ℕ
best_rank id [] = 0
best_rank id (d ∷ devices) = max (own_rank id d) (best_rank id devices)

-- A device for each service that has an address and a port.
abbrev pub offered : (ℕ → ℕ) → List (List ℕ × List ℕ) → List (List ℕ × Service) → List Device
offered lower hosts [] = []
offered lower hosts ((key, s) ∷ services) =
    if is_blank (text_of_key s.host hosts) || s.port == 0
    then offered lower hosts services
    else service_device lower key (text_of_key s.host hosts) s ∷ offered lower hosts services

prefer_device-rank : (a b : Device) → rank (prefer_device a b) ≡ max (rank a) (rank b)
unfolding prefer_device
prefer_device-rank a b = ground arith

prefer_device-id : (a b : Device) → a.id ≡ b.id → (prefer_device a b).id ≡ a.id
unfolding prefer_device
prefer_device-id a b e = ground arith

own_rank-prefer :
    (id : List ℕ) (a b : Device)
    → a.id ≡ b.id
    → own_rank id (prefer_device a b) ≡ max (own_rank id a) (own_rank id b)
own_rank-prefer id a b e =
    ap (λ i. counted (same_runes i id) (rank (prefer_device a b))) (prefer_device-id a b e)
    ∙ (ap (counted (same_runes a.id id)) (prefer_device-rank a b)
        ∙ (counted_max (same_runes a.id id) (rank a) (rank b)
            ∙ ap (λ i. max (own_rank id a) (counted (same_runes i id) (rank b))) e))

best_rank-merge_device :
    (id : List ℕ) (d : Device) (devices : List Device)
    → best_rank id (merge_device d devices) ≡ max (own_rank id d) (best_rank id devices)
unfolding merge_device
best_rank-merge_device id d [] = refl
best_rank-merge_device id d (old ∷ devices) = elim (Bool-cases (same_runes old.id d.id)) [
  | inl same ↦ rw same (
      ap (λ n. max n (best_rank id devices))
        (own_rank-prefer id old d (same_runes→eq old.id d.id same))
      ∙ omega arith)
  | inr other ↦
      rw other (ap (max (own_rank id old)) (best_rank-merge_device id d devices) ∙ omega arith)
]

best_rank-insert_device :
    (id : List ℕ) (d : Device) (devices : List Device)
    → best_rank id (insert_device d devices) ≡ max (own_rank id d) (best_rank id devices)
unfolding insert_device
best_rank-insert_device id d [] = refl
best_rank-insert_device id d (e ∷ devices) = elim (Bool-cases (name_before e.name d.name)) [
  | inl before ↦
      rw before (ap (max (own_rank id e)) (best_rank-insert_device id d devices) ∙ omega arith)
  | inr after ↦ rw after refl
]

best_rank-sort_devices :
    (id : List ℕ) (devices : List Device)
    → best_rank id (sort_devices devices) ≡ best_rank id devices
unfolding sort_devices
best_rank-sort_devices id [] = refl
best_rank-sort_devices id (d ∷ devices) =
    best_rank-insert_device id d (sort_devices devices)
    ∙ ap (max (own_rank id d)) (best_rank-sort_devices id devices)

best_rank-merge_services :
    (lower : ℕ → ℕ) (hosts : List (List ℕ × List ℕ)) (id : List ℕ)
    (services : List (List ℕ × Service)) (devices : List Device)
    → best_rank id (merge_services lower hosts services devices)
      ≡ max (best_rank id (offered lower hosts services)) (best_rank id devices)
unfolding merge_services add_service
best_rank-merge_services lower hosts id [] devices = omega arith
best_rank-merge_services lower hosts id ((key, s) ∷ services) devices =
    elim (Bool-cases (is_blank (text_of_key s.host hosts) || s.port == 0)) [
      | inl passed ↦ rw passed (best_rank-merge_services lower hosts id services devices)
      | inr used ↦
          let d : Device = service_device lower key (text_of_key s.host hosts) s in
          rw used (
            best_rank-merge_services lower hosts id services (merge_device d devices)
            ∙ (ap (max (best_rank id (offered lower hosts services)))
                  (best_rank-merge_device id d devices)
                ∙ omega arith))
    ]

-- Whether a device with the id is in the list, and that each id is there once.
abbrev pub has_id : List ℕ → List Device → Bool
has_id id [] = false
has_id id (d ∷ devices) = same_runes d.id id || has_id id devices

abbrev pub HasEachIdOnce : List Device → Type 0
HasEachIdOnce [] = Unit {0}
HasEachIdOnce (d ∷ devices) = (has_id d.id devices ≡ false) × HasEachIdOnce devices

has_id-merge_device :
    (id : List ℕ) (d : Device) (devices : List Device)
    → has_id id (merge_device d devices) ≡ (same_runes d.id id || has_id id devices)
unfolding merge_device
has_id-merge_device id d [] = refl
has_id-merge_device id d (old ∷ devices) = elim (Bool-cases (same_runes old.id d.id)) [
  | inl same ↦
      let e : old.id ≡ d.id = same_runes→eq old.id d.id same in
      rw (same, prefer_device-id old d e, sym e) (ground arith)
  | inr other ↦ rw (other, has_id-merge_device id d devices) (ground arith)
]

merge_device-HasEachIdOnce :
    (d : Device) (devices : List Device)
    → HasEachIdOnce devices
    → HasEachIdOnce (merge_device d devices)
unfolding merge_device
merge_device-HasEachIdOnce d [] h = (refl, tt)
merge_device-HasEachIdOnce d (old ∷ devices) h = elim (Bool-cases (same_runes old.id d.id)) [
  | inl same ↦
      let e : old.id ≡ d.id = same_runes→eq old.id d.id same in
      rw (same, prefer_device-id old d e) h
  | inr other ↦
      rw (other, has_id-merge_device old.id d devices)
        (rw (same_runes_comm d.id old.id, other) h.0, merge_device-HasEachIdOnce d devices h.1)
]

has_id-insert_device :
    (id : List ℕ) (d : Device) (devices : List Device)
    → has_id id (insert_device d devices) ≡ (same_runes d.id id || has_id id devices)
unfolding insert_device
has_id-insert_device id d [] = refl
has_id-insert_device id d (e ∷ devices) = elim (Bool-cases (name_before e.name d.name)) [
  | inl before ↦ rw (before, has_id-insert_device id d devices) (ground arith)
  | inr after ↦ rw after refl
]

insert_device-HasEachIdOnce :
    (d : Device) (devices : List Device)
    → has_id d.id devices ≡ false
    → HasEachIdOnce devices
    → HasEachIdOnce (insert_device d devices)
unfolding insert_device
insert_device-HasEachIdOnce d [] n h = (refl, tt)
insert_device-HasEachIdOnce d (e ∷ devices) n h = elim (Bool-cases (name_before e.name d.name)) [
  | inl before ↦
      let other : same_runes d.id e.id ≡ false = rw (same_runes_comm d.id e.id) (ground arith) in
      rw before (
        rw (has_id-insert_device e.id d devices, other) h.0,
        insert_device-HasEachIdOnce d devices (ground arith) h.1,
      )
  | inr after ↦ rw after (n, h)
]

has_id-sort_devices :
    (id : List ℕ) (devices : List Device) → has_id id (sort_devices devices) ≡ has_id id devices
unfolding sort_devices
has_id-sort_devices id [] = refl
has_id-sort_devices id (d ∷ devices) =
    rw (has_id-insert_device id d (sort_devices devices), has_id-sort_devices id devices) refl

sort_devices-HasEachIdOnce :
    (devices : List Device) → HasEachIdOnce devices → HasEachIdOnce (sort_devices devices)
unfolding sort_devices
sort_devices-HasEachIdOnce [] h = tt
sort_devices-HasEachIdOnce (d ∷ devices) h =
    insert_device-HasEachIdOnce d (sort_devices devices) (has_id-sort_devices d.id devices ∙ h.0)
      (sort_devices-HasEachIdOnce devices h.1)

merge_services-HasEachIdOnce :
    (lower : ℕ → ℕ) (hosts : List (List ℕ × List ℕ)) (services : List (List ℕ × Service))
    (devices : List Device)
    → HasEachIdOnce devices
    → HasEachIdOnce (merge_services lower hosts services devices)
unfolding merge_services add_service
merge_services-HasEachIdOnce lower hosts [] devices h = h
merge_services-HasEachIdOnce lower hosts ((key, s) ∷ services) devices h =
    elim (Bool-cases (is_blank (text_of_key s.host hosts) || s.port == 0)) [
      | inl passed ↦ rw passed (merge_services-HasEachIdOnce lower hosts services devices h)
      | inr used ↦ rw used (
          merge_services-HasEachIdOnce lower hosts services _
            (merge_device-HasEachIdOnce _ devices h))
    ]

-- In whatever order the map of services is gone through, no two devices of the list have one id, and the device
-- of an id is of the best rank among those of the services with an address and a port: a supported one before
-- others, and AirPlay 2 before the rest. An id without such a service has no device.
pub devices_from_services-best_rank :
    (lower : ℕ → ℕ) (services : List (List ℕ × Service)) (hosts : List (List ℕ × List ℕ))
    → HasEachIdOnce (devices_from_services lower services hosts)
      × ((id : List ℕ)
          → best_rank id (devices_from_services lower services hosts)
            ≡ best_rank id (offered lower hosts services))
unfolding devices_from_services
devices_from_services-best_rank lower services hosts = (
  sort_devices-HasEachIdOnce _ (merge_services-HasEachIdOnce lower hosts services [] tt),
  λ id.
      best_rank-sort_devices id (merge_services lower hosts services [])
      ∙ (best_rank-merge_services lower hosts id services [] ∙ omega arith),
)
