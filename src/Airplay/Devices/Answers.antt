-- ===== src/Airplay/Devices/Answers.antt =====
-- `discoverInterface` of internal/airplay/discovery.go: what an answer's records add to the services, the
-- hosts and the questions asked.
use harmonia_server.Prelude.{
  ℕ, Bool, false, not, ◌||◌, ◌&&◌, List, [], ◌∷◌, ◌++◌, Option, none, some, if◌then◌else◌, ltb,
  ◌==◌, length, take, drop,
}
use harmonia_server.Prelude.Runes.{runes, same_runes, has_suffix, trim_suffix, cut_at, put_text}
use harmonia_server.Airplay.Dns.{DnsRecord}
use harmonia_server.Airplay.Devices.{Service}

-- The questions are the names and types that were sent, each one once.
pub record Found : Type 0 where
  pub services : List (List ℕ × Service)
  pub hosts : List (List ℕ × List ℕ)
  pub asked : List (List ℕ × ℕ)

unfoldable pub was_asked : List ℕ → ℕ → List (List ℕ × ℕ) → Bool
was_asked name typ [] = false
was_asked name typ ((n, t) ∷ asked) = (same_runes n name && t == typ) || was_asked name typ asked

unfoldable pub ask : List ℕ → ℕ → Found → Found
ask name typ f =
    if was_asked name typ f.asked then f else record f { asked = f.asked ++ ((name, typ) ∷ []) }

unfoldable pub find_service : List ℕ → List (List ℕ × Service) → Option Service
find_service key [] = none
find_service key ((k, s) ∷ services) =
    if same_runes k key then some s else find_service key services

unfoldable pub put_service : List ℕ → Service → List (List ℕ × Service) → List (List ℕ × Service)
put_service key s [] = (key, s) ∷ []
put_service key s ((k, old) ∷ services) =
    let rest = put_service key s services in
    if same_runes k key then (k, s) ∷ services else (k, old) ∷ rest

abbrev pub new_service : List ℕ → Service
new_service name = record { name = name; host = []; port = 0; txt = [] }

unfoldable pub service_or : Service → Option Service → Service
service_or s none = s
service_or s (some old) = old

-- `key=value`, or a key alone
unfoldable pub put_pair :
    (List ℕ → List ℕ)
    → List ℕ
    → Option (List ℕ × List ℕ)
    → List (List ℕ × List ℕ)
    → List (List ℕ × List ℕ)
put_pair lower text none m = put_text (lower text) [] m
put_pair lower text (some (k, v)) m = put_text (lower k) v m

-- The strings of a TXT record: the list ends at one that is longer than what is left.
unfoldable pub txt_round :
    (List ℕ → List ℕ) → List ℕ × List (List ℕ × List ℕ) → List ℕ × List (List ℕ × List ℕ)
txt_round lower ([], m) = ([], m)
txt_round lower (n ∷ rest, m) =
    if ltb (length rest) n
    then ([], m)
    else (drop n rest, put_pair lower (take n rest) (cut_at 61 (take n rest)) m)

unfoldable pub txt_rounds :
    (List ℕ → List ℕ) → ℕ → List ℕ × List (List ℕ × List ℕ) → List (List ℕ × List ℕ)
txt_rounds lower ℕ.zero state = state.1
txt_rounds lower (ℕ.suc rounds) state = txt_rounds lower rounds (txt_round lower state)

-- A string takes a byte at least.
unfoldable pub read_txt :
    (List ℕ → List ℕ) → List ℕ → List (List ℕ × List ℕ) → List (List ℕ × List ℕ)
read_txt lower b m = txt_rounds lower (length b) (b, m)

unfoldable pub is_service_name : List ℕ → Bool
is_service_name name =
    has_suffix (runes "._airplay._tcp.local.") name || has_suffix (runes "._raop._tcp.local.") name

unfoldable pub add_pointer : (List ℕ → List ℕ) → DnsRecord → Found → Found
add_pointer lower r f =
    let key = lower r.target in
    let fresh = new_service (trim_suffix ((46 ∷ []) ++ r.name) r.target) in
    let known = service_or fresh (find_service key f.services) in
    if same_runes r.name (runes "_airplay._tcp.local.")
      || same_runes r.name (runes "_raop._tcp.local.")
    then ask r.target 16
        (ask r.target 33 (record f { services = put_service key known f.services }))
    else f

unfoldable pub add_service_record : (List ℕ → List ℕ) → DnsRecord → Found → Found
add_service_record lower r f =
    let fresh = new_service (trim_suffix (runes "._airplay._tcp.local.") r.name) in
    let s = service_or fresh (find_service r.name f.services) in
    let placed : Service = record s { host = lower r.target; port = r.port } in
    let described : Service = record s { txt = read_txt lower r.data_bytes s.txt } in
    if not (is_service_name r.name)
    then f
    else (if r.typ == 33
        then ask r.target 1 (record f { services = put_service r.name placed f.services })
        else record f { services = put_service r.name described f.services })

-- `show_ip` is `net.IP.String`.
unfoldable pub handle_record : (List ℕ → List ℕ) → (List ℕ → List ℕ) → DnsRecord → Found → Found
handle_record lower show_ip r f =
    if r.ttl == 0
    then f
    else (if r.typ == 12
        then add_pointer lower r f
        else (if r.typ == 33 || r.typ == 16
            then add_service_record lower r f
            else (if r.typ == 1 && length r.data_bytes == 4
                then record f { hosts = put_text r.name (show_ip r.data_bytes) f.hosts }
                else f)))

unfoldable pub handle_records :
    (List ℕ → List ℕ) → (List ℕ → List ℕ) → List DnsRecord → Found → Found
handle_records lower show_ip [] f = f
handle_records lower show_ip (r ∷ rs) f =
    handle_records lower show_ip rs (handle_record lower show_ip r f)
