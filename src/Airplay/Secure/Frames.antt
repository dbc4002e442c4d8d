-- ===== src/Airplay/Secure/Frames.antt =====
-- The receiver reads what was written, whatever the sizes of its buffers.
use harmonia_server.Prelude.{
  ℕ, zero, suc, ◌+◌, ◌*◌, ◌/◌, ◌%◌, ◌<◌, ◌≤◌, ◌≡◌, refl, sym, ap, ◌∙◌, Bool, true, false, ◌||◌,
  List, [], ◌∷◌, ◌++◌, append_assoc, some, arith, ltb, ◌==◌, length, take, drop, length-append,
  length-take, length-drop, take-append-drop, take-append, drop-append,
}
use harmonia_server.Airplay.Secure.{
  Aead, little_endian, frame_nonce, next_counter, frame, after_frame, write_loop, Reading,
  ReadResult, read_bytes, read_full, copy_pending, open_next, read_sealed, read_header,
}

read_full-append : (xs ys : List ℕ) → read_full (length xs) (xs ++ ys) ≡ some (xs, ys)
unfolding read_full
read_full-append xs ys =
    let fits : ltb (length (xs ++ ys)) (length xs) ≡ false = ground (arith, length-append xs ys) in
    rw (fits, take-append xs ys, drop-append xs ys)

little_endian-two : (n : ℕ) → n ≤ 1024 → n % 256 + 256 * (n / 256 % 256) ≡ n
little_endian-two n h = omega arith

two_bytes :
    (n : ℕ) (rest : List ℕ)
    → read_full 2 (little_endian 2 n ++ rest) ≡ some (little_endian 2 n, rest)
unfolding little_endian
two_bytes n rest = read_full-append (n % 256 ∷ n / 256 % 256 ∷ []) rest

-- The header, and the piece that was sealed under it.
abbrev sealed : Aead → ℕ → List ℕ → List ℕ
sealed a counter piece = Aead.seal a (frame_nonce counter) piece (little_endian 2 (length piece))

read_full-sealed :
    (a : Aead) (counter : ℕ) (piece rest : List ℕ)
    → read_full (length piece + 16) (sealed a counter piece ++ rest)
      ≡ some (sealed a counter piece, rest)
read_full-sealed a counter piece rest =
    rw (sym (Aead.length-seal a (frame_nonce counter) piece (little_endian 2 (length piece))))
      (read_full-append (sealed a counter piece) rest)

read_sealed-frame :
    (a : Aead) (size : ℕ) (piece rest : List ℕ) (s : Reading)
    → 0 < length piece
    → length piece ≤ 1024
    → read_sealed a size (little_endian 2 (length piece)) (sealed a s.counter piece ++ rest) s
      ≡ copy_pending size
          (record { counter = next_counter s.counter; pending = piece; input = rest })
unfolding read_sealed open_next little_endian
read_sealed-frame a size piece rest s h b =
    let back : length piece % 256 + 256 * (length piece / 256 % 256) ≡ length piece =
      little_endian-two (length piece) b in
    let allowed : (length piece == 0 || ltb 1024 (length piece)) ≡ false = ground arith in
    rw (
      back,
      allowed,
      read_full-sealed a s.counter piece rest,
      open_next,
      Aead.open_frame-seal a (frame_nonce s.counter) piece (little_endian 2 (length piece)),
    )

-- A frame at the front of the input is read back, and the counters stay in step.
read_header-frame :
    (a : Aead) (size : ℕ) (piece rest : List ℕ) (s : Reading)
    → 0 < length piece
    → length piece ≤ 1024
    → s.input ≡ frame a s.counter piece ++ rest
    → read_header a size s
      ≡ copy_pending size
          (record { counter = next_counter s.counter; pending = piece; input = rest })
unfolding read_header frame
read_header-frame a size piece rest s h b e =
    let header : List ℕ = little_endian 2 (length piece) in
    let split : read_full 2 s.input ≡ some (header, sealed a s.counter piece ++ rest) =
      ap (read_full 2) (e ∙ append_assoc header (sealed a s.counter piece) rest)
      ∙ two_bytes (length piece) (sealed a s.counter piece ++ rest) in
    rw (split, read_header) (read_sealed-frame a size piece rest s h b)

abbrev pub takes_all : ℕ → Bool
takes_all k = true

-- What is still to be read: what is pending, then what the frames of the input hold.
abbrev pub Holds : Aead → Reading → List ℕ → Type 0
Holds a s bytes =
    (fuel : ℕ) × (p : List ℕ) × (length p ≤ fuel)
    × (s.input ≡ (write_loop a takes_all fuel s.counter p).wire)
    × (bytes ≡ s.pending ++ p)

-- A read gives some bytes, not more than were asked for, and leaves the rest.
abbrev pub Gives : Aead → ℕ → List ℕ → ReadResult → Type 0
Gives a size bytes result =
    (got : List ℕ) × (s : Reading) × (left : List ℕ) × (result ≡ read_bytes got s)
    × (bytes ≡ got ++ left)
    × (0 < length got)
    × (length got ≤ size)
    × Holds a s left

pub copy_pending-Gives :
    (a : Aead) (size : ℕ) (s : Reading) (bytes : List ℕ)
    → 0 < size
    → 0 < length s.pending
    → Holds a s bytes
    → Gives a size bytes (copy_pending size s)
unfolding copy_pending
copy_pending-Gives a size s bytes h b (fuel, p, enough, e, d) = (
  take size s.pending,
  record s { pending = drop size s.pending },
  drop size s.pending ++ p,
  refl,
  d
      ∙ ap (λ (u : List ℕ). u ++ p) (sym (take-append-drop size s.pending))
      ∙ append_assoc (take size s.pending) (drop size s.pending) p,
  omega (arith, length-take size s.pending),
  omega (arith, length-take size s.pending),
  (fuel, p, enough, e, refl),
)

pub read_header-Gives :
    (a : Aead) (size : ℕ) (s : Reading) (bytes : List ℕ)
    → 0 < size
    → 0 < length bytes
    → s.pending ≡ []
    → Holds a s bytes
    → Gives a size bytes (read_header a size s)
unfolding write_loop after_frame
read_header-Gives a size s bytes h b empty (fuel, [], enough, e, d) =
    absurd (omega (arith, ap length (d ∙ ap (λ (u : List ℕ). u ++ []) empty)))
read_header-Gives a size s bytes h b empty (zero, y ∷ ys, enough, e, d) = absurd (omega arith)
read_header-Gives a size s bytes h b empty (suc fuel, y ∷ ys, enough, e, d) =
    let p : List ℕ = y ∷ ys in
    let rest : List ℕ = (write_loop a takes_all fuel (next_counter s.counter) (drop 1024 p)).wire in
    rw
      (read_header-frame a size (take 1024 p) rest s (omega (arith, length-take 1024 p))
        (omega (arith, length-take 1024 p)) e)
      (copy_pending-Gives a size
        (record { counter = next_counter s.counter; pending = take 1024 p; input = rest }) bytes h
        (omega (arith, length-take 1024 p))
        (
          fuel,
          drop 1024 p,
          omega (arith, length-drop 1024 p),
          refl,
          d ∙ ap (λ (u : List ℕ). u ++ p) empty ∙ sym (take-append-drop 1024 p),
        ))
