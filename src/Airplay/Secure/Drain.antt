-- ===== src/Airplay/Secure/Drain.antt =====
-- A whole message across the encrypted connection.
use harmonia_server.Prelude.{
  ℕ, zero, suc, ◌<◌, ◌≤◌, ◌≡◌, refl, sym, ap, ◌∙◌, inl, inr, Bool, false, List, [], ◌∷◌, ◌++◌,
  arith, length, drop, length-append, length-drop, Bool-cases, ◌⊎◌,
}
use harmonia_server.Airplay.Secure.{
  Aead, next_counter, Written, after_frame, write_loop, write, Reading, end_of_input, read_bytes,
  read_failed, read_full, read_header, read_pending, read,
}
use harmonia_server.Airplay.Secure.Frames.{
  takes_all, Holds, Gives, copy_pending-Gives, read_header-Gives,
}

read_after :
    (a : Aead) (n : ℕ) (s : Reading) (bytes pending : List ℕ)
    → s.pending ≡ pending
    → 0 < length bytes
    → Holds a s bytes
    → Gives a (suc n) bytes (read_pending a (suc n) pending s)
unfolding read_pending
read_after a n s bytes [] e b holds = read_header-Gives a (suc n) s bytes (omega arith) b e holds
read_after a n s bytes (x ∷ xs) e b holds =
    copy_pending-Gives a (suc n) s bytes (omega arith) (rw e (omega arith)) holds

-- While bytes are left, a read into a buffer that is not empty gives the next ones, at least one and
-- not more than the buffer holds, and what is left is still to be read.
pub read-Gives :
    (a : Aead) (n : ℕ) (s : Reading) (bytes : List ℕ)
    → 0 < length bytes
    → Holds a s bytes
    → Gives a (suc n) bytes (read a (suc n) s)
unfolding read
read-Gives a n s bytes = read_after a n s bytes s.pending refl

-- Reads into buffers of one size, until one fails or the rounds are used up.
unfoldable pub drain : Aead → ℕ → ℕ → Reading → List ℕ
drain a size zero s = []
drain a size (suc rounds) s = elim (read a size s) [
  | read_failed e ↦ []
  | read_bytes got t ↦ got ++ drain a size rounds t
]

write_loop-nothing : (a : Aead) (fuel out : ℕ) → (write_loop a takes_all fuel out []).wire ≡ []
unfolding write_loop
write_loop-nothing a zero out = refl
write_loop-nothing a (suc fuel) out = refl

read_after_nothing :
    (a : Aead) (n : ℕ) (s : Reading) (pending : List ℕ)
    → s.pending ≡ pending
    → Holds a s []
    → read_pending a (suc n) pending s ≡ read_failed end_of_input
unfolding read_pending read_header read_full
read_after_nothing a n s [] e (fuel, [], enough, i, d) =
    rw (i ∙ write_loop-nothing a fuel s.counter)
read_after_nothing a n s [] e (fuel, y ∷ ys, enough, i, d) =
    absurd (omega (arith, ap length d, length-append s.pending (y ∷ ys)))
read_after_nothing a n s (x ∷ xs) e (fuel, p, enough, i, d) =
    absurd (omega (arith, ap length d, length-append s.pending p, ap length e))

read-nothing :
    (a : Aead) (n : ℕ) (s : Reading) → Holds a s [] → read a (suc n) s ≡ read_failed end_of_input
unfolding read
read-nothing a n s = read_after_nothing a n s s.pending refl

drain-Holds :
    (a : Aead) (n rounds : ℕ) (s : Reading) (bytes : List ℕ)
    → length bytes ≤ rounds
    → Holds a s bytes
    → drain a (suc n) rounds s ≡ bytes
unfolding drain
drain-Holds a n zero s [] h holds = refl
drain-Holds a n zero s (x ∷ xs) h holds = absurd (omega arith)
drain-Holds a n (suc rounds) s [] h holds = rw (read-nothing a n s holds, drain)
drain-Holds a n (suc rounds) s (x ∷ xs) h holds =
    let (got, t, left, e, split, some_bytes, few, still) =
      read-Gives a n s (x ∷ xs) (omega arith) holds in
    rw (e, drain)
      (ap (λ (u : List ℕ). got ++ u)
          (drain-Holds a n rounds t left (omega (arith, ap length split, length-append got left))
            still)
        ∙ sym split)

-- What was written arrives: reads into buffers of any size give exactly the bytes of the message, when
-- the connection takes every frame and both sides begin at the same counter. The bytes of the message
-- are rounds enough.
pub drain-write :
    (a : Aead) (n rounds counter : ℕ) (p : List ℕ)
    → length p ≤ rounds
    → drain a
        (suc n)
        rounds
        (record { counter = counter; pending = []; input = (write a takes_all counter p).wire })
      ≡ p
unfolding write
drain-write a n rounds counter p h =
    drain-Holds a n rounds _ p h (length p, p, omega arith, refl, refl)

-- What a call promises of its count.
abbrev pub Counts : List ℕ → Written → Type 0
Counts p w = (w.total ≤ length p) × ((w.done ≡ false) ⊎ (w.total ≡ length p))

write_loop-Counts :
    (a : Aead) (accepts : ℕ → Bool) (fuel out : ℕ) (p : List ℕ)
    → length p ≤ fuel
    → Counts p (write_loop a accepts fuel out p)
unfolding write_loop after_frame
write_loop-Counts a accepts zero out [] h = (omega arith, inr refl)
write_loop-Counts a accepts zero out (x ∷ xs) h = absurd (omega arith)
write_loop-Counts a accepts (suc fuel) out [] h = (omega arith, inr refl)
write_loop-Counts a accepts (suc fuel) out (x ∷ xs) h = elim (Bool-cases (accepts out)) [
  | inr refused ↦ rw refused (omega arith, inl refl)
  | inl taken ↦
      let (few, exact) =
        write_loop-Counts a accepts fuel (next_counter out) (drop 1024 (x ∷ xs))
          (omega (arith, length-drop 1024 (x ∷ xs))) in
      rw taken (
        omega (arith, few, length-drop 1024 (x ∷ xs)),
        elim exact [
          | inl broken ↦ inl broken
          | inr all ↦ inr (omega (arith, all, length-drop 1024 (x ∷ xs)))
        ],
      )
]

-- Whatever frames the connection refuses, the count that `Write` returns is at most the length of the
-- message, and a call that succeeds has counted all of it.
pub write-Counts :
    (a : Aead) (accepts : ℕ → Bool) (out : ℕ) (p : List ℕ) → Counts p (write a accepts out p)
unfolding write
write-Counts a accepts out p = write_loop-Counts a accepts (length p) out p (omega arith)
