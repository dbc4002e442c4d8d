-- ===== src/Airplay/Devices.antt =====
-- The receivers of internal/airplay/discovery.go: from the services and hosts of the answers to the list
-- of devices. The texts are valid UTF-8 here; `lower` is `unicode.ToLower`.
pub mod Answers
pub mod Merged
use harmonia_server.Prelude.{
  ℕ, ◌+◌, ◌*◌, ◌-◌, ◌/◌, ◌%◌, ◌^◌, min, Bool, true, false, not, ◌||◌, ◌&&◌, List, [], ◌∷◌, Option,
  none, some, if◌then◌else◌, ltb, leb, ◌==◌, length, drop,
}
use harmonia_server.Prelude.Runes.{
  runes, same_runes, trim_space, split_at, has_prefix, has_suffix, trim_suffix, cut_at, map_runes,
  join_with, without, lower_letter, upper_letter, text_of_key,
}

pub data DeviceType : Type 0 where
  airplay_2 airplay_1 airplay_other : DeviceType

pub data Unsupported : Type 0 where
  no_alac no_udp password fair_play no_transport : Unsupported

pub record MetadataSupport : Type 0 where
  pub known : Bool
  pub text : Bool
  pub artwork : Bool
  pub progress : Bool

-- The `Selected` that only a client sets is left out.
pub record Device : Type 0 where
  pub id : List ℕ
  pub name : List ℕ
  pub address : List ℕ
  pub port : ℕ
  pub features : ℕ
  pub metadata : MetadataSupport
  pub requires_auth : Bool
  pub kind : DeviceType
  pub rsa : Bool
  pub unsupported : Option Unsupported

pub record Service : Type 0 where
  pub name : List ℕ
  pub host : List ℕ
  pub port : ℕ
  pub txt : List (List ℕ × List ℕ)

unfoldable pub hex_digit : ℕ → Option ℕ
hex_digit c =
    if leb 48 c && leb c 57
    then some (c - 48)
    else (if leb 97 c && leb c 102
        then some (c - 87)
        else (if leb 65 c && leb c 70 then some (c - 55) else none))

unfoldable pub hex_step : Option ℕ → ℕ → Option ℕ
hex_step none n = none
hex_step (some d) n = some (n * 16 + d)

-- A number that is out of range already is not read further.
unfoldable pub hex_from : Option ℕ → List ℕ → Option ℕ
hex_from n [] = n
hex_from none (c ∷ s) = none
hex_from (some n) (c ∷ s) =
    let rest = hex_from (hex_step (hex_digit c) n) s in if ltb 0xffffffff n then some n else rest

unfoldable pub capped : Option ℕ → ℕ
capped none = 0
capped (some n) = min n 0xffffffff

-- The number of `strconv.ParseUint(s, 16, 32)`, whose error is not looked at: 0 for a text that is no number, the
-- largest for one out of range.
unfoldable pub parse_hex : List ℕ → ℕ
parse_hex [] = 0
parse_hex (c ∷ s) = capped (hex_from (some 0) (c ∷ s))

unfoldable pub feature_part : List ℕ → ℕ
feature_part s =
    let t = trim_space s in parse_hex (if has_prefix (runes "0x") t then drop 2 t else t)

-- The second part holds the high 32 bits; further parts are not read.
unfoldable pub feature_parts : List (List ℕ) → ℕ
feature_parts [] = 0
feature_parts (low ∷ []) = feature_part low
feature_parts (low ∷ high ∷ _) = feature_part low + feature_part high * 4294967296

unfoldable pub feature_bits : List ℕ → ℕ
feature_bits v = feature_parts (split_at 44 v)

unfoldable pub has_feature : ℕ → ℕ → Bool
has_feature k features = features / 2 ^ k % 2 == 1

unfoldable pub any_item : List ℕ → List (List ℕ) → Bool
any_item want [] = false
any_item want (item ∷ items) = same_runes (trim_space item) want || any_item want items

unfoldable pub csv_has : List ℕ → List ℕ → Bool
csv_has value want = any_item want (split_at 44 value)

unfoldable pub is_hex : List ℕ → Bool
is_hex [] = true
is_hex (c ∷ s) = is_digit (hex_digit c) && is_hex s
  where
    is_digit : Option ℕ → Bool
    is_digit none = false
    is_digit (some d) = true

unfoldable pub in_pairs : List ℕ → List (List ℕ)
in_pairs (a ∷ b ∷ s) = (a ∷ b ∷ []) ∷ in_pairs s
in_pairs s = []

-- Twelve hexadecimal digits become a hardware address. The length is in bytes, but a text that is not
-- ASCII has no value as a number, and gives the same.
unfoldable pub device_id : (ℕ → ℕ) → List ℕ → List ℕ
device_id lower value =
    let compact = map_runes lower (without 58 value) in
    if not (length compact == 12) || not (is_hex compact)
    then map_runes lower value
    else join_with (58 ∷ []) (in_pairs compact)

unfoldable pub is_supported : Device → Bool
is_supported d = no_reason d.unsupported
  where
    no_reason : Option Unsupported → Bool
    no_reason none = true
    no_reason (some r) = false

unfoldable pub is_airplay_2 : DeviceType → Bool
is_airplay_2 airplay_2 = true
is_airplay_2 airplay_1 = false
is_airplay_2 airplay_other = false

unfoldable pub prefer_device : Device → Device → Device
prefer_device a b =
    if is_supported a && not (is_supported b)
    then a
    else (if not (is_supported a) && is_supported b
        then b
        else (if is_airplay_2 b.kind && not (is_airplay_2 a.kind) then b else a))

unfoldable pub is_blank : List ℕ → Bool
is_blank [] = true
is_blank (c ∷ s) = false

unfoldable pub txt : List ℕ → Service → List ℕ
txt key s = text_of_key key s.txt

-- `strings.EqualFold(s.txt["pw"], "true")`: no other character folds to a letter of this word.
unfoldable pub wants_password : Service → Bool
wants_password s = same_runes (map_runes lower_letter (txt (runes "pw") s)) (runes "true")

-- The cases of an AirPlay 1 receiver, in order. Nothing but ASCII has UDP in upper case.
unfoldable pub raop_reason : Service → Option Unsupported
raop_reason s =
    let et = txt (runes "et") s in
    if not (is_blank (txt (runes "cn") s)) && not (csv_has (txt (runes "cn") s) (runes "1"))
    then some no_alac
    else (if not (is_blank (txt (runes "tp") s))
          && not (csv_has (map_runes upper_letter (txt (runes "tp") s)) (runes "UDP"))
        then some no_udp
        else (if wants_password s
            then some password
            else (if csv_has et (runes "1")
                then none
                else (if not (is_blank et) && not (csv_has et (runes "0"))
                    then some fair_play
                    else none))))

-- The case that comes before the last is reached.
unfoldable pub raop_rsa : Service → Bool
raop_rsa s = reasonless (raop_reason s) && csv_has (txt (runes "et") s) (runes "1")
  where
    reasonless : Option Unsupported → Bool
    reasonless none = true
    reasonless (some r) = false

unfoldable pub raop_device : Service → Device → Device
raop_device s d =
    let md = txt (runes "md") s in
    let support : MetadataSupport = record {
      known = true;
      text = csv_has md (runes "0");
      artwork = csv_has md (runes "1");
      progress = csv_has md (runes "2");
    } in
    record d { kind = airplay_1; metadata = support; unsupported = raop_reason s; rsa = raop_rsa s }

unfoldable pub or_bits : ℕ → ℕ → ℕ
or_bits bits other = if bits == 0 then other else bits

unfoldable pub transport_device : Service → Device → Device
transport_device s d =
    let flags =
      or_bits (feature_bits (txt (runes "flags") s)) (feature_bits (txt (runes "sf") s)) in
    let support : MetadataSupport = record {
      known = true;
      text = has_feature 17 d.features;
      artwork = has_feature 15 d.features;
      progress = has_feature 16 d.features;
    } in
    if not (has_feature 9 d.features)
      || not (has_feature 48 d.features || has_feature 38 d.features)
    then record d { kind = airplay_other; unsupported = some no_transport }
    else record d { metadata = support; requires_auth = has_feature 3 flags || wants_password s }

-- The name of a RAOP service is `id@name`.
unfoldable pub split_name : List ℕ → List ℕ → Option (List ℕ × List ℕ) → List ℕ × List ℕ
split_name id name none = (id, name)
split_name id name (some (prefix, suffix)) = (if is_blank id then prefix else id, suffix)

unfoldable pub id_and_name : Bool → Service → List ℕ × List ℕ
id_and_name raop s =
    let name = trim_suffix (runes "._raop._tcp.local.") s.name in
    let id = txt (runes "deviceid") s in
    if raop then split_name id name (cut_at 64 name) else (id, name)

unfoldable pub service_device : (ℕ → ℕ) → List ℕ → List ℕ → Service → Device
service_device lower key address s =
    let raop = has_suffix (runes "._raop._tcp.local.") key in
    let names = id_and_name raop s in
    let unknown : MetadataSupport = record {
      known = false;
      text = false;
      artwork = false;
      progress = false;
    } in
    let d : Device = record {
      id = device_id lower (if is_blank names.0 then key else names.0);
      name = names.1;
      address = address;
      port = s.port;
      features =
          or_bits (feature_bits (txt (runes "features") s)) (feature_bits (txt (runes "ft") s));
      metadata = unknown;
      requires_auth = false;
      kind = airplay_2;
      rsa = false;
      unsupported = none;
    } in
    if raop then raop_device s d else transport_device s d

-- One device for an id, the preferred one.
unfoldable pub merge_device : Device → List Device → List Device
merge_device d [] = d ∷ []
merge_device d (old ∷ devices) =
    let rest = merge_device d devices in
    if same_runes old.id d.id then prefer_device old d ∷ devices else old ∷ rest

-- A service without an address or a port is passed over. The map of services is a list here, in the
-- order in which Go goes through it.
unfoldable pub add_service :
    (ℕ → ℕ) → List (List ℕ × List ℕ) → List ℕ × Service → List Device → List Device
add_service lower hosts (key, s) devices =
    let address = text_of_key s.host hosts in
    if is_blank address || s.port == 0
    then devices
    else merge_device (service_device lower key address s) devices

unfoldable pub merge_services :
    (ℕ → ℕ) → List (List ℕ × List ℕ) → List (List ℕ × Service) → List Device → List Device
merge_services lower hosts [] devices = devices
merge_services lower hosts (entry ∷ services) devices =
    merge_services lower hosts services (add_service lower hosts entry devices)

-- Names are ordered by their bytes, which is the order of their code points.
unfoldable pub name_before : List ℕ → List ℕ → Bool
name_before [] [] = false
name_before [] (d ∷ t) = true
name_before (c ∷ s) [] = false
name_before (c ∷ s) (d ∷ t) = ltb c d || (c == d && name_before s t)

unfoldable pub insert_device : Device → List Device → List Device
insert_device d [] = d ∷ []
insert_device d (e ∷ devices) =
    let rest = insert_device d devices in
    if name_before e.name d.name then e ∷ rest else d ∷ e ∷ devices

-- `sort.Slice` by name; it may leave devices of one name in another order.
unfoldable pub sort_devices : List Device → List Device
sort_devices [] = []
sort_devices (d ∷ devices) = insert_device d (sort_devices devices)

unfoldable pub devices_from_services :
    (ℕ → ℕ) → List (List ℕ × Service) → List (List ℕ × List ℕ) → List Device
devices_from_services lower services hosts = sort_devices (merge_services lower hosts services [])

-- `Discover`: the devices of each interface that answered; no list where none did.
unfoldable pub merge_found : List Device → List Device → List Device
merge_found [] out = out
merge_found (d ∷ devices) out = merge_found devices (merge_device d out)

unfoldable pub merge_interfaces :
    List (Option (List Device)) → Bool × List Device → Bool × List Device
merge_interfaces [] state = state
merge_interfaces (none ∷ results) state = merge_interfaces results state
merge_interfaces (some devices ∷ results) (succeeded, out) =
    merge_interfaces results (true, merge_found devices out)

pub data Discovered : Type 0 where
  discovered : List Device → Discovered
  no_interface cancelled all_failed : Discovered

unfoldable pub discover_all : Bool → List (Option (List Device)) → Discovered
discover_all is_cancelled [] = no_interface
discover_all is_cancelled (r ∷ results) =
    let merged = merge_interfaces (r ∷ results) (false, []) in
    if is_cancelled
    then cancelled
    else (if merged.0 then discovered (sort_devices merged.1) else all_failed)
