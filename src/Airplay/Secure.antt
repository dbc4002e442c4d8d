-- ===== src/Airplay/Secure.antt =====
-- `secureWire` of internal/airplay/wire.go: the encrypted frames of a control connection. The cipher
-- is a parameter, since golang.org/x/crypto is not in the repository.
pub mod Frames
pub mod Drain
use harmonia_server.Prelude.{
  ℕ, zero, suc, ◌+◌, ◌*◌, ◌/◌, ◌%◌, ◌^◌, ◌≡◌, Bool, true, false, ◌||◌, List, [], ◌∷◌, ◌++◌, Option,
  none, some, min, if◌then◌else◌, ltb, ◌==◌, length, take, drop,
}

-- `cipher.AEAD` with its key. The laws: what was sealed opens, under the same nonce and header, and
-- the seal adds the 16 bytes of a tag.
pub record Aead : Type 0 where
  pub seal : List ℕ → List ℕ → List ℕ → List ℕ
  pub open_frame : List ℕ → List ℕ → List ℕ → Option (List ℕ)
  pub open_frame-seal :
      (nonce plain header : List ℕ) → open_frame nonce (seal nonce plain header) header ≡ some plain
  pub length-seal :
      (nonce plain header : List ℕ) → length (seal nonce plain header) ≡ length plain + 16

-- The bytes of a number, the lowest first.
unfoldable pub little_endian : ℕ → ℕ → List ℕ
little_endian zero n = []
little_endian (suc k) n = n % 256 ∷ little_endian k (n / 256)

-- Four zeros and the counter.
unfoldable pub frame_nonce : ℕ → List ℕ
unfolding little_endian
frame_nonce counter = 0 ∷ 0 ∷ 0 ∷ 0 ∷ little_endian 8 counter

unfoldable pub next_counter : ℕ → ℕ
next_counter n = (n + 1) % 2 ^ 64

-- What a call of `Write` has done: the counter, the bytes on the wire, the count that it returns,
-- and whether it succeeded.
pub record Written : Type 0 where
  pub out : ℕ
  pub wire : List ℕ
  pub total : ℕ
  pub done : Bool

-- The frame of one piece: two bytes of length, in the clear but authenticated, and the sealed piece.
unfoldable pub frame : Aead → ℕ → List ℕ → List ℕ
unfolding little_endian frame_nonce
frame a out piece =
    let header = little_endian 2 (length piece) in
    header ++ Aead.seal a (frame_nonce out) piece header

-- The frame in front of what a call has still to write.
unfoldable pub after_frame : ℕ → List ℕ → Written → Written
after_frame n bytes w = record w { wire = bytes ++ w.wire; total = n + w.total }

-- The loop of `Write`, on fuel. `accepts k` says whether the connection takes the frame numbered k; of
-- a frame that it refuses nothing is kept here.
unfoldable pub write_loop : Aead → (ℕ → Bool) → ℕ → ℕ → List ℕ → Written
unfolding frame after_frame next_counter
write_loop a accepts zero out p = record { out = out; wire = []; total = 0; done = true }
write_loop a accepts (suc fuel) out [] = record { out = out; wire = []; total = 0; done = true }
write_loop a accepts (suc fuel) out (x ∷ xs) =
    let piece = take 1024 (x ∷ xs) in
    let rest = write_loop a accepts fuel (next_counter out) (drop 1024 (x ∷ xs)) in
    if accepts out
    then after_frame (min 1024 (length (x ∷ xs))) (frame a out piece) rest
    else record { out = out; wire = []; total = 0; done = false }

-- A frame takes a byte at least, so the length is fuel enough.
unfoldable pub write : Aead → (ℕ → Bool) → ℕ → List ℕ → Written
unfolding write_loop
write a accepts out p = write_loop a accepts (length p) out p

-- The reading side: its counter, what is decrypted and not yet read, and what the connection still
-- has.
pub record Reading : Type 0 where
  pub counter : ℕ
  pub pending : List ℕ
  pub input : List ℕ

pub data ReadError : Type 0 where
  end_of_input invalid_length not_authentic : ReadError

pub data ReadResult : Type 0 where
  read_bytes : List ℕ → Reading → ReadResult
  read_failed : ReadError → ReadResult

-- `io.ReadFull`
unfoldable pub read_full : ℕ → List ℕ → Option (List ℕ × List ℕ)
read_full n b = if ltb (length b) n then none else some (take n b, drop n b)

-- `n := copy(p, s.pending)`
unfoldable pub copy_pending : ℕ → Reading → ReadResult
copy_pending size s = read_bytes (take size s.pending) (record s { pending = drop size s.pending })

unfoldable pub open_next : Aead → ℕ → List ℕ → List ℕ → List ℕ → Reading → ReadResult
unfolding frame_nonce copy_pending next_counter
open_next a size header sealed rest s =
    elim (Aead.open_frame a (frame_nonce s.counter) sealed header) [
      | none ↦ read_failed not_authentic
      | some plain ↦
          copy_pending size
            (record { counter = next_counter s.counter; pending = plain; input = rest })
    ]

-- The sealed part, once the header has given its length.
unfoldable pub read_sealed : Aead → ℕ → List ℕ → List ℕ → Reading → ReadResult
unfolding read_full open_next
read_sealed a size (lo ∷ hi ∷ []) rest s =
    let l = lo + 256 * hi in
    if l == 0 || ltb 1024 l then read_failed invalid_length else elim (read_full (l + 16) rest) [
      | none ↦ read_failed end_of_input
      | some (sealed, after) ↦ open_next a size (lo ∷ hi ∷ []) sealed after s
    ]
read_sealed a size _ rest s = read_failed end_of_input

unfoldable pub read_header : Aead → ℕ → Reading → ReadResult
unfolding read_full read_sealed
read_header a size s = elim (read_full 2 s.input) [
  | none ↦ read_failed end_of_input
  | some (header, rest) ↦ read_sealed a size header rest s
]

unfoldable pub read_pending : Aead → ℕ → List ℕ → Reading → ReadResult
unfolding copy_pending read_header
read_pending a size [] s = read_header a size s
read_pending a size (_ ∷ _) s = copy_pending size s

-- `Read` into a buffer of `size` bytes.
unfoldable pub read : Aead → ℕ → Reading → ReadResult
unfolding read_pending
read a zero s = read_bytes [] s
read a (suc n) s = read_pending a (suc n) s.pending s
