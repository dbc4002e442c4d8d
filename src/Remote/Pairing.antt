-- ===== src/Remote/Pairing.antt =====
-- `pairDevice` of remote.go. `pair` holds the output whose pairing waits for its PIN; that the
-- pairing lapses after two minutes is `pair_expires`.
use harmonia_server.Prelude.{
  Bool, false, not, List, [], ◌∷◌, Option, none, some, String, if◌then◌else◌, str_eq,
}
use harmonia_server.Remote.State.{
  Remote, World, RemoteError, output_not_found, unsupported, legacy_pairing, start_pairing_first,
  not_persisted,
}
use harmonia_server.Remote.Playback.{find_device}

unfoldable pub delete : String → List String → List String
delete a [] = []
delete a (x ∷ xs) = let rest = delete a xs in if str_eq x a then rest else x ∷ rest

unfoldable pub begin_pairing : World → String → Remote → Remote × Option RemoteError
begin_pairing w id r = elim (find_device id r.devices) [
  | none ↦ (r, some output_not_found)
  | some d ↦
      if not (str_eq d.unsupported_reason "")
      then (r, some (unsupported d.unsupported_reason))
      else (let c = record r { pair = none } in
          if str_eq d.device_type "AirPlay 1"
          then (c, some legacy_pairing)
          else elim (w.begin_pair d) [
            | some e ↦ (c, some e)
            | none ↦ (record c { pair = some id }, none)
          ])
]

unfoldable pub finish_pairing : World → String → String → Remote → Remote × Option RemoteError
unfolding delete
finish_pairing w id pin r =
    let c = record r { pair = none } in
    elim (w.finish_pair pin) [
      | some e ↦ (c, some e)
      | none ↦
          let p = record c {
            paired = id ∷ c.paired;
            pairing_required = delete id c.pairing_required;
          } in
          (p, if w.identity_written then none else some not_persisted)
    ]

-- Whether the pairing that waits is that of this output.
unfoldable pub awaits : Option String → String → Bool
awaits none id = false
awaits (some p) id = str_eq p id

unfoldable pub pair_device : World → String → String → Remote → Remote × Option RemoteError
unfolding begin_pairing finish_pairing awaits
pair_device w id pin r =
    if str_eq pin ""
    then begin_pairing w id r
    else (if awaits r.pair id then finish_pairing w id pin r else (r, some start_pairing_first))

unfoldable pub pair_expires : Remote → Remote
pair_expires r = record r { pair = none }
