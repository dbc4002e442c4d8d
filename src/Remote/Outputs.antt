-- ===== src/Remote/Outputs.antt =====
-- `Outputs` of remote.go: the receivers that discovery has found. Whether one is selected is computed
-- for the answer only; the queue itself never reads it.
use harmonia_server.Prelude.{
  not, ◌&&◌, ◌||◌, ◌≡◌, List, [], ◌∷◌, some, String, str_eq, contains, inl, inr, Bool-cases,
}
use harmonia_server.Remote.State.{Remote, Device}
use harmonia_server.Remote.Playback.{find_device}

-- `r.devices[d.ID] = *d` for each; the first entry of a key is the one that counts.
unfoldable pub put_devices : List Device → List Device → List Device
put_devices [] known = known
put_devices (d ∷ ds) known = put_devices ds (d ∷ known)

unfoldable pub discover : List Device → Remote → Remote
unfolding put_devices
discover found r = record r { devices = put_devices found r.devices }

-- A device as the answer shows it: paired outputs need no PIN unless the receiver asked for one again.
unfoldable pub shown_device : Remote → Device → Device
shown_device r d = record d {
  requires_auth =
      d.requires_auth && not (contains r.paired d.id) || contains r.pairing_required d.id;
}

-- A device is not forgotten when others are found.
known_or_found :
    (found known : List Device) (id : String) (d : Device)
    → find_device id known ≡ some d
    → (e : Device) × (find_device id (put_devices found known) ≡ some e)
unfolding put_devices find_device
known_or_found [] known id d h = (d, h)
known_or_found (x ∷ xs) known id d h = elim (Bool-cases (str_eq x.id id)) [
  | inl same ↦ known_or_found xs (x ∷ known) id x (rw same)
  | inr other ↦ known_or_found xs (x ∷ known) id d (rw other h)
]

-- An output that was known stays known, whatever a discovery finds.
pub discover_keeps :
    (found : List Device) (r : Remote) (id : String) (d : Device)
    → find_device id r.devices ≡ some d
    → (e : Device) × (find_device id (discover found r).devices ≡ some e)
unfolding discover
discover_keeps found r id d h = known_or_found found r.devices id d h
