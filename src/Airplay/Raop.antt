-- ===== src/Airplay/Raop.antt =====
-- `raopPacket` and `raopTransport` of internal/airplay/raop.go.
use harmonia_server.Prelude.{
  ℕ, ◌*◌, ◌/◌, Bool, not, ◌||◌, List, [], ◌∷◌, ◌++◌, Option, none, some, if◌then◌else◌, ltb, ◌==◌,
  length, take, drop,
}
use harmonia_server.Prelude.Runes.{
  runes, same_runes, split_at, trim_space, cut_at, natural, map_runes, upper_letter,
}
use harmonia_server.Airplay.Audio.{pcm_bytes, rtp_header, alac}

-- `new_cipher` is `aes.NewCipher`, which refuses some keys, with the CBC encrypter of the block and an IV.
unfoldable pub cbc_blocks : List ℕ → List ℕ → Option (List ℕ → List ℕ → List ℕ) → Option (List ℕ)
cbc_blocks iv payload none = none
cbc_blocks iv payload (some encrypt) =
    let full = length payload / 16 * 16 in
    if not (length iv == 16)
    then none
    else some (encrypt iv (take full payload) ++ drop full payload)

unfoldable pub raop_payload :
    (List ℕ → Option (List ℕ → List ℕ → List ℕ)) → List ℕ → List ℕ → List ℕ → Option (List ℕ)
raop_payload new_cipher key iv payload =
    if ltb 0 (length key) then cbc_blocks iv payload (new_cipher key) else some payload

unfoldable pub behind : List ℕ → Option (List ℕ) → Option (List ℕ)
behind header none = none
behind header (some payload) = some (header ++ payload)

unfoldable pub raop_packet :
    (List ℕ → Option (List ℕ → List ℕ → List ℕ))
    → List ℕ
    → List ℕ
    → ℕ
    → ℕ
    → ℕ
    → List ℕ
    → Option (List ℕ)
raop_packet new_cipher key iv seq stamp ssrc pcm =
    if not (length pcm == pcm_bytes)
    then none
    else behind (rtp_header seq stamp ssrc) (raop_payload new_cipher key iv (alac pcm))

-- The ports that a receiver names, 0 for none.
pub record Ports : Type 0 where
  pub server : ℕ
  pub control : ℕ
  pub timing : ℕ

unfoldable pub set_port : List ℕ → ℕ → Ports → Ports
set_port key port p =
    if same_runes key (runes "server_port")
    then record p { server = port }
    else (if same_runes key (runes "control_port")
        then record p { control = port }
        else record p { timing = port })

unfoldable pub is_port_key : List ℕ → Bool
is_port_key key =
    same_runes key (runes "server_port")
    || same_runes key (runes "control_port")
    || same_runes key (runes "timing_port")

unfoldable pub no_quotes_before : List ℕ → List ℕ
no_quotes_before [] = []
no_quotes_before (c ∷ s) = if c == 34 then no_quotes_before s else c ∷ s

unfoldable pub unless_quote : ℕ → List ℕ → List ℕ
unless_quote c [] = if c == 34 then [] else c ∷ []
unless_quote c (d ∷ s) = c ∷ d ∷ s

unfoldable pub no_quotes_behind : List ℕ → List ℕ
no_quotes_behind [] = []
no_quotes_behind (c ∷ s) = unless_quote c (no_quotes_behind s)

unfoldable pub checked_port : List ℕ → Option ℕ → Ports → Option Ports
checked_port key none p = none
checked_port key (some port) p =
    if ltb port 1 || ltb 65535 port then none else some (set_port key port p)

unfoldable pub add_port : Option (List ℕ × List ℕ) → Ports → Option Ports
add_port none p = some p
add_port (some (key, value)) p =
    if is_port_key key
    then checked_port key (natural (no_quotes_behind (no_quotes_before value))) p
    else some p

unfoldable pub add_ports : List (List ℕ) → Option Ports → Option Ports
add_ports [] p = p
add_ports (part ∷ parts) none = none
add_ports (part ∷ parts) (some p) = add_ports parts (add_port (cut_at 61 (trim_space part)) p)

unfoldable pub with_ports : Option Ports → Option Ports
with_ports none = none
with_ports (some p) = if p.server == 0 || p.control == 0 then none else some p

-- `strings.EqualFold` with a text of ASCII letters that no other letter folds to.
unfoldable pub transport_parts : List (List ℕ) → Option Ports
transport_parts [] = none
transport_parts (protocol ∷ parts) =
    if same_runes (map_runes upper_letter (trim_space protocol)) (runes "RTP/AVP/UDP")
    then with_ports (add_ports parts (some (record { server = 0; control = 0; timing = 0 })))
    else none

unfoldable pub raop_transport : List ℕ → Option Ports
raop_transport value = transport_parts (split_at 59 value)
