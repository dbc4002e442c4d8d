-- ===== src/Airplay/Examples.antt =====
-- Small messages, and the theorems about internal/airplay applied to them.
use harmonia_server.Airplay.Plist.Messages.{unplist-Within}
use harmonia_server.Airplay.Plist.Limits.{Within}
use harmonia_server.Airplay.Plist.Decode.{parse, parse_object, parse_tag, parse_value}
use harmonia_server.Airplay.Plist.Values.{
  decoded, boolean, big_at, big_endian, nats_eq, read_number, big_number, slice,
}
use harmonia_server.Airplay.Plist.{plist_magic, unplist, parse_root, bad_trailer, trailer}
use harmonia_server.Prelude.{
  ℕ, ◌-◌, ◌≡◌, refl, ap, List, [], ◌∷◌, ◌++◌, some, arith, length, take, length-append, take-append,
  true,
}
use harmonia_server.Airplay.Tlv.{tlv, untlv, lookup, parsed}
use harmonia_server.Airplay.Tlv.Fragments.{value_of, untlv-tlv}
use harmonia_server.Airplay.Secure.{Aead, write_loop, write, Reading}
use harmonia_server.Airplay.Secure.Frames.{takes_all}
use harmonia_server.Airplay.Secure.Drain.{drain, drain-write}

abbrev pairing_message : List (ℕ × List ℕ)
pairing_message = (6, 1 ∷ []) ∷ (3, 10 ∷ 20 ∷ 30 ∷ []) ∷ (5, []) ∷ (3, 40 ∷ []) ∷ []

untlv-tlv_example :
    (m : List (ℕ × List ℕ)) × (untlv (tlv pairing_message) ≡ parsed m)
    × ((t : ℕ) → lookup t m ≡ value_of t pairing_message)
unfolding value_of
untlv-tlv_example = untlv-tlv pairing_message refl

abbrev tag_bytes : List ℕ
tag_bytes = 0 ∷ 0 ∷ 0 ∷ 0 ∷ 0 ∷ 0 ∷ 0 ∷ 0 ∷ 0 ∷ 0 ∷ 0 ∷ 0 ∷ 0 ∷ 0 ∷ 0 ∷ 0 ∷ []

strip_tag : (plain : List ℕ) → take (length (plain ++ tag_bytes) - 16) (plain ++ tag_bytes) ≡ plain
strip_tag plain =
    let short : length (plain ++ tag_bytes) - 16 ≡ length plain =
      omega (arith, length-append plain tag_bytes) in
    rw short (take-append plain tag_bytes)

-- A cipher that hides nothing, and has the two laws.
abbrev plain_cipher : Aead
plain_cipher = record {
  seal = λ nonce plain header. plain ++ tag_bytes;
  open_frame = λ nonce bytes header. some (take (length bytes - 16) bytes);
  open_frame-seal = λ nonce plain header. ap some (strip_tag plain);
  length-seal = λ nonce plain header. length-append plain tag_bytes;
}

drain-write_example :
    drain plain_cipher 2 3 (record {
      counter = 5;
      pending = [];
      input = (write plain_cipher takes_all 5 (1 ∷ 2 ∷ 3 ∷ [])).wire;
    })
    ≡ 1 ∷ 2 ∷ 3 ∷ []
drain-write_example = drain-write plain_cipher 1 3 5 (1 ∷ 2 ∷ 3 ∷ []) (omega arith)

abbrev half_read : Reading
half_read = record {
  counter = 5;
  pending = 1 ∷ 2 ∷ [];
  input = (write_loop plain_cipher takes_all 1 5 (3 ∷ [])).wire;
}

-- A property list whose only object is `true`.
abbrev true_plist : List ℕ
true_plist =
    plist_magic
    ++ (9 ∷ 8 ∷ 0 ∷ 0 ∷ 0 ∷ 0 ∷ 0 ∷ 0 ∷ 1 ∷ 1 ∷ 0 ∷ 0 ∷ 0 ∷ 0 ∷ 0 ∷ 0 ∷ 0 ∷ 1 ∷ 0 ∷ 0 ∷ 0 ∷ 0 ∷ 0
        ∷ 0 ∷ 0 ∷ 0 ∷ 0 ∷ 0 ∷ 0 ∷ 0 ∷ 0 ∷ 0 ∷ 0 ∷ 9 ∷ [])

unplist-true : unplist true_plist ≡ decoded (boolean true, 65535)
unfolding unplist parse_root bad_trailer trailer big_at big_endian nats_eq parse parse_object
    parse_tag parse_value read_number big_number slice
unplist-true = refl

unplist-Within_example : Within 33 65536 (unplist true_plist)
unplist-Within_example = unplist-Within true_plist
