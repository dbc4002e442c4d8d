-- ===== src/Airplay/Tlv.antt =====
-- `tlv` and `untlv` of internal/airplay/wire.go: the pairing messages, in which a long value is split
-- into pieces of 255 bytes under one tag.
pub mod Fragments
use harmonia_server.Prelude.{
  ℕ, zero, suc, ◌+◌, List, [], ◌∷◌, ◌++◌, min, if◌then◌else◌, ltb, ◌==◌, length, take, drop,
}

unfoldable pub fragments : ℕ → ℕ → List ℕ → List ℕ
fragments zero tag v = []
fragments (suc fuel) tag [] = []
fragments (suc fuel) tag (x ∷ xs) =
    tag ∷ min 255 (length (x ∷ xs)) ∷ (take 255 (x ∷ xs) ++ fragments fuel tag (drop 255 (x ∷ xs)))

-- One tag and its value. A piece takes at least one byte, so the length is fuel enough.
unfoldable pub put_value : ℕ → List ℕ → List ℕ
put_value tag [] = tag ∷ 0 ∷ []
put_value tag (x ∷ xs) = fragments (length (x ∷ xs)) tag (x ∷ xs)

unfoldable pub tlv : List (ℕ × List ℕ) → List ℕ
tlv [] = []
tlv ((tag, v) ∷ values) = put_value tag v ++ tlv values

-- A map from tags to values; a missing tag has the empty value, as a nil slice.
unfoldable pub lookup : ℕ → List (ℕ × List ℕ) → List ℕ
lookup tag [] = []
lookup tag ((k, v) ∷ m) = if k == tag then v else lookup tag m

-- `m[tag] = append(m[tag], piece...)`
unfoldable pub extend : ℕ → List ℕ → List (ℕ × List ℕ) → List (ℕ × List ℕ)
extend tag piece [] = (tag, piece) ∷ []
extend tag piece ((k, v) ∷ m) =
    let rest = extend tag piece m in if k == tag then (k, v ++ piece) ∷ m else (k, v) ∷ rest

pub data TlvError : Type 0 where
  invalid_tlv needs_pairing : TlvError
  rejected : ℕ → TlvError

pub data Parsed : Type 0 where
  parsed : List (ℕ × List ℕ) → Parsed
  failed : TlvError → Parsed

-- Tag 7 carries an error code.
unfoldable pub check_error : List ℕ → List (ℕ × List ℕ) → Parsed
check_error [] m = parsed m
check_error (code ∷ _) m = failed (if code == 2 then needs_pairing else rejected code)

unfoldable pub untlv_loop : ℕ → List (ℕ × List ℕ) → List ℕ → Parsed
untlv_loop fuel m [] = check_error (lookup 7 m) m
untlv_loop zero m (tag ∷ rest) = failed invalid_tlv
untlv_loop (suc fuel) m (tag ∷ []) = failed invalid_tlv
untlv_loop (suc fuel) m (tag ∷ n ∷ b) =
    let rest = untlv_loop fuel (extend tag (take n b) m) (drop n b) in
    if ltb (length b) n then failed invalid_tlv else rest

-- Each round takes two bytes at least, so the length of the message is fuel enough.
unfoldable pub untlv : List ℕ → Parsed
untlv b = untlv_loop (length b) [] b
