-- ===== src/Airplay/Plist.antt =====
-- `unplist` of internal/airplay/plist.go: the decoder of binary property lists, which come from a peer
-- that is not trusted. An index or a slice out of range panics in Go; here it is the error `panics`.
pub mod Values
pub mod Decode
pub mod Limits
pub mod Safety
pub mod Messages
use harmonia_server.Prelude.{
  ℕ, ◌+◌, ◌-◌, ◌*◌, Bool, not, ◌||◌, List, [], ◌∷◌, if◌then◌else◌, ltb, leb, ◌==◌, length, get_or,
  take,
}
use harmonia_server.Airplay.Plist.Values.{Plist, Answer, refused, invalid_plist, nats_eq, big_at}
use harmonia_server.Airplay.Plist.Decode.{Trailer, parse}

-- `bplist00`
abbrev pub plist_magic : List ℕ
plist_magic = 98 ∷ 112 ∷ 108 ∷ 105 ∷ 115 ∷ 116 ∷ 48 ∷ 48 ∷ []

-- The last 32 bytes. Reading a number at a fixed place of a message this long does not fail.
unfoldable pub trailer : List ℕ → Trailer
trailer b =
    let at = length b - 32 in
    record {
      offset_size = get_or b (at + 6) 0;
      ref_size = get_or b (at + 7) 0;
      objects = big_at (at + 8) b;
      root = big_at (at + 16) b;
      table = big_at (at + 24) b;
    }

-- The check of the trailer; `size` is the length of the message.
unfoldable pub bad_trailer : ℕ → Trailer → Bool
bad_trailer size t =
    ltb t.offset_size 1
    || ltb 8 t.offset_size
    || ltb t.ref_size 1
    || ltb 8 t.ref_size
    || t.objects == 0
    || ltb 65536 t.objects
    || leb t.objects t.root
    || ltb t.table 8
    || ltb (size - 32) t.table
    || ltb (size - 32 - t.table) (t.objects * t.offset_size)

-- Objects nest to depth 32, so 33 levels; 65536 objects are visited at most.
unfoldable pub parse_root : List ℕ → Trailer → Answer (Plist × ℕ)
parse_root b t =
    if bad_trailer (length b) t then refused invalid_plist else parse t b 33 t.root 65536

unfoldable pub unplist : List ℕ → Answer (Plist × ℕ)
unfolding parse_root
unplist b =
    if ltb (length b) 40 || ltb 2097152 (length b) || not (nats_eq (take 8 b) plist_magic)
    then refused invalid_plist
    else parse_root b (trailer b)
