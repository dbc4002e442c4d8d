-- ===== src/Airplay/Audio/Samples.antt =====
-- A decoder of verbatim ALAC gets the samples back.
use harmonia_server.Prelude.{
  ℕ, zero, suc, ◌+◌, ◌*◌, ◌/◌, ◌%◌, ◌<◌, ◌≡◌, refl, sym, ap, ◌∙◌, List, [], ◌∷◌, ◌++◌, All, arith,
  length, take, drop, append_assoc, subst,
}
use harmonia_server.Airplay.Audio.{put_bits, sample_bits, alac_bits, pack, alac}

abbrev pub byte_bits : ℕ → List ℕ
byte_bits b =
    (b / 128 % 2)
    ∷ (b / 64 % 2)
    ∷ (b / 32 % 2)
    ∷ (b / 16 % 2)
    ∷ (b / 8 % 2)
    ∷ (b / 4 % 2)
    ∷ (b / 2 % 2)
    ∷ (b % 2)
    ∷ []

-- The bits of bytes, the high ones first.
abbrev pub unpack : List ℕ → List ℕ
unpack [] = []
unpack (b ∷ bs) = byte_bits b ++ unpack bs

-- The number of the next bits.
abbrev pub number_of : ℕ → ℕ → List ℕ → ℕ
number_of zero n bits = n
number_of (suc k) n [] = n
number_of (suc k) n (b ∷ bits) = number_of k (n * 2 + b) bits

-- Samples of 16 bits as two bytes, the low one first.
abbrev pub read_samples : ℕ → List ℕ → List ℕ
read_samples zero bits = []
read_samples (suc n) bits =
    let v = number_of 16 0 bits in (v % 256) ∷ (v / 256) ∷ read_samples n (drop 16 bits)

abbrev AreBits : List ℕ → Type 0
AreBits = All (λ b. b < 2)

byte_bits-sum :
    (b7 b6 b5 b4 b3 b2 b1 b0 : ℕ)
    → b7 < 2
    → b6 < 2
    → b5 < 2
    → b4 < 2
    → b3 < 2
    → b2 < 2
    → b1 < 2
    → b0 < 2
    → byte_bits (b7 * 128 + b6 * 64 + b5 * 32 + b4 * 16 + b3 * 8 + b2 * 4 + b1 * 2 + b0)
      ≡ b7 ∷ b6 ∷ b5 ∷ b4 ∷ b3 ∷ b2 ∷ b1 ∷ b0 ∷ []
byte_bits-sum b7 b6 b5 b4 b3 b2 b1 b0 h7 h6 h5 h4 h3 h2 h1 h0 =
    let e7 : (b7 * 128 + b6 * 64 + b5 * 32 + b4 * 16 + b3 * 8 + b2 * 4 + b1 * 2 + b0) / 128 % 2
        ≡ b7 =
      omega arith in
    let e6 : (b7 * 128 + b6 * 64 + b5 * 32 + b4 * 16 + b3 * 8 + b2 * 4 + b1 * 2 + b0) / 64 % 2
        ≡ b6 =
      omega arith in
    let e5 : (b7 * 128 + b6 * 64 + b5 * 32 + b4 * 16 + b3 * 8 + b2 * 4 + b1 * 2 + b0) / 32 % 2
        ≡ b5 =
      omega arith in
    let e4 : (b7 * 128 + b6 * 64 + b5 * 32 + b4 * 16 + b3 * 8 + b2 * 4 + b1 * 2 + b0) / 16 % 2
        ≡ b4 =
      omega arith in
    let e3 : (b7 * 128 + b6 * 64 + b5 * 32 + b4 * 16 + b3 * 8 + b2 * 4 + b1 * 2 + b0) / 8 % 2 ≡ b3 =
      omega arith in
    let e2 : (b7 * 128 + b6 * 64 + b5 * 32 + b4 * 16 + b3 * 8 + b2 * 4 + b1 * 2 + b0) / 4 % 2 ≡ b2 =
      omega arith in
    let e1 : (b7 * 128 + b6 * 64 + b5 * 32 + b4 * 16 + b3 * 8 + b2 * 4 + b1 * 2 + b0) / 2 % 2 ≡ b1 =
      omega arith in
    let e0 : (b7 * 128 + b6 * 64 + b5 * 32 + b4 * 16 + b3 * 8 + b2 * 4 + b1 * 2 + b0) % 2 ≡ b0 =
      omega arith in
    rw (e7, e6, e5, e4, e3, e2, e1, e0) refl

-- What the last byte has beyond the bits.
unpack-pack : (bits : List ℕ) → AreBits bits → (rest : List ℕ) × (unpack (pack bits) ≡ bits ++ rest)
unfolding pack
unpack-pack [] h = ([], refl)
unpack-pack (b7 ∷ []) (h7, _) = (
  0 ∷ 0 ∷ 0 ∷ 0 ∷ 0 ∷ 0 ∷ 0 ∷ [],
  byte_bits-sum b7 0 0 0 0 0 0 0 h7 (omega arith) (omega arith) (omega arith) (omega arith)
      (omega arith) (omega arith) (omega arith),
)
unpack-pack (b7 ∷ b6 ∷ []) (h7, (h6, _)) = (
  0 ∷ 0 ∷ 0 ∷ 0 ∷ 0 ∷ 0 ∷ [],
  byte_bits-sum b7 b6 0 0 0 0 0 0 h7 h6 (omega arith) (omega arith) (omega arith) (omega arith)
      (omega arith) (omega arith),
)
unpack-pack (b7 ∷ b6 ∷ b5 ∷ []) (h7, (h6, (h5, _))) = (
  0 ∷ 0 ∷ 0 ∷ 0 ∷ 0 ∷ [],
  byte_bits-sum b7 b6 b5 0 0 0 0 0 h7 h6 h5 (omega arith) (omega arith) (omega arith) (omega arith)
      (omega arith),
)
unpack-pack (b7 ∷ b6 ∷ b5 ∷ b4 ∷ []) (h7, (h6, (h5, (h4, _)))) = (
  0 ∷ 0 ∷ 0 ∷ 0 ∷ [],
  byte_bits-sum b7 b6 b5 b4 0 0 0 0 h7 h6 h5 h4 (omega arith) (omega arith) (omega arith)
      (omega arith),
)
unpack-pack (b7 ∷ b6 ∷ b5 ∷ b4 ∷ b3 ∷ []) (h7, (h6, (h5, (h4, (h3, _))))) = (
  0 ∷ 0 ∷ 0 ∷ [],
  byte_bits-sum b7 b6 b5 b4 b3 0 0 0 h7 h6 h5 h4 h3 (omega arith) (omega arith) (omega arith),
)
unpack-pack (b7 ∷ b6 ∷ b5 ∷ b4 ∷ b3 ∷ b2 ∷ []) (h7, (h6, (h5, (h4, (h3, (h2, _)))))) =
    (0 ∷ 0 ∷ [], byte_bits-sum b7 b6 b5 b4 b3 b2 0 0 h7 h6 h5 h4 h3 h2 (omega arith) (omega arith))
unpack-pack (b7 ∷ b6 ∷ b5 ∷ b4 ∷ b3 ∷ b2 ∷ b1 ∷ []) (h7, (h6, (h5, (h4, (h3, (h2, (h1, _))))))) =
    (0 ∷ [], byte_bits-sum b7 b6 b5 b4 b3 b2 b1 0 h7 h6 h5 h4 h3 h2 h1 (omega arith))
unpack-pack (b7 ∷ b6 ∷ b5 ∷ b4 ∷ b3 ∷ b2 ∷ b1 ∷ b0 ∷ bits)
      (h7, (h6, (h5, (h4, (h3, (h2, (h1, (h0, h)))))))) =
    let (rest, e) = unpack-pack bits h in
    let first : byte_bits _ ≡ _ = byte_bits-sum b7 b6 b5 b4 b3 b2 b1 b0 h7 h6 h5 h4 h3 h2 h1 h0 in
    (
      rest,
      ap (λ x. x ++ unpack (pack bits)) first
          ∙ ap (λ x. b7 ∷ b6 ∷ b5 ∷ b4 ∷ b3 ∷ b2 ∷ b1 ∷ b0 ∷ x) e,
    )

module _ (low high : ℕ) (l : low < 256) (h : high < 256) where
  -- The sixteen bits of a sample are those of its two bytes.
  put_bits-byte_bits : put_bits 16 (low + 256 * high) ≡ byte_bits high ++ byte_bits low
  unfolding put_bits
  put_bits-byte_bits =
      let e15 : (low + 256 * high) / 32768 % 2 ≡ high / 128 % 2 = omega arith in
      let e14 : (low + 256 * high) / 16384 % 2 ≡ high / 64 % 2 = omega arith in
      let e13 : (low + 256 * high) / 8192 % 2 ≡ high / 32 % 2 = omega arith in
      let e12 : (low + 256 * high) / 4096 % 2 ≡ high / 16 % 2 = omega arith in
      let e11 : (low + 256 * high) / 2048 % 2 ≡ high / 8 % 2 = omega arith in
      let e10 : (low + 256 * high) / 1024 % 2 ≡ high / 4 % 2 = omega arith in
      let e9 : (low + 256 * high) / 512 % 2 ≡ high / 2 % 2 = omega arith in
      let e8 : (low + 256 * high) / 256 % 2 ≡ high % 2 = omega arith in
      let e7 : (low + 256 * high) / 128 % 2 ≡ low / 128 % 2 = omega arith in
      let e6 : (low + 256 * high) / 64 % 2 ≡ low / 64 % 2 = omega arith in
      let e5 : (low + 256 * high) / 32 % 2 ≡ low / 32 % 2 = omega arith in
      let e4 : (low + 256 * high) / 16 % 2 ≡ low / 16 % 2 = omega arith in
      let e3 : (low + 256 * high) / 8 % 2 ≡ low / 8 % 2 = omega arith in
      let e2 : (low + 256 * high) / 4 % 2 ≡ low / 4 % 2 = omega arith in
      let e1 : (low + 256 * high) / 2 % 2 ≡ low / 2 % 2 = omega arith in
      let e0 : (low + 256 * high) / 1 % 2 ≡ low % 2 = omega arith in
      rw (e15, e14, e13, e12, e11, e10, e9, e8, e7, e6, e5, e4, e3, e2, e1, e0) refl

  number_of-byte_bits :
      (rest : List ℕ)
      → number_of 16 0 (byte_bits high ++ (byte_bits low ++ rest)) ≡ low + 256 * high
  number_of-byte_bits rest = omega arith

read_samples-sample_bits :
    (n : ℕ) (pcm rest : List ℕ)
    → All (λ b. b < 256) pcm
    → length pcm ≡ n * 2
    → read_samples n (sample_bits pcm ++ rest) ≡ pcm
unfolding sample_bits put_bits
read_samples-sample_bits zero [] rest a e = refl
read_samples-sample_bits zero (b ∷ pcm) rest a e = absurd (omega arith)
read_samples-sample_bits (suc n) [] rest a e = absurd (omega arith)
read_samples-sample_bits (suc n) (b ∷ []) rest a e = absurd (omega arith)
read_samples-sample_bits (suc n) (low ∷ high ∷ pcm) rest a e =
    let bits : List ℕ = sample_bits pcm ++ rest in
    let first : put_bits 16 (low + 256 * high) ++ bits ≡ byte_bits high ++ (byte_bits low ++ bits) =
      ap (λ x. x ++ bits) (put_bits-byte_bits low high a.0 a.1.0) in
    let next : read_samples n bits ≡ pcm =
      read_samples-sample_bits n pcm rest a.1.1 (omega arith) in
    let whole : number_of 16 0 (byte_bits high ++ (byte_bits low ++ bits)) ≡ low + 256 * high =
      number_of-byte_bits low high a.0 a.1.0 bits in
    let low_byte : (low + 256 * high) % 256 ≡ low = omega arith in
    let high_byte : (low + 256 * high) / 256 ≡ high = omega arith in
    ap (read_samples (suc n)) first ∙ rw (whole, low_byte, high_byte, next) refl

put_bits-AreBits : (k n : ℕ) → AreBits (put_bits k n)
unfolding put_bits
put_bits-AreBits zero n = tt
put_bits-AreBits (suc k) n = (omega arith, put_bits-AreBits k n)

append-AreBits : (xs ys : List ℕ) → AreBits xs → AreBits ys → AreBits (xs ++ ys)
append-AreBits [] ys a b = b
append-AreBits (x ∷ xs) ys a b = (a.0, append-AreBits xs ys a.1 b)

sample_bits-AreBits : (pcm : List ℕ) → AreBits (sample_bits pcm)
unfolding sample_bits
sample_bits-AreBits [] = tt
sample_bits-AreBits (b ∷ []) = tt
sample_bits-AreBits (low ∷ high ∷ pcm) =
    append-AreBits (put_bits 16 (low + 256 * high)) (sample_bits pcm)
      (put_bits-AreBits 16 (low + 256 * high)) (sample_bits-AreBits pcm)

-- The header of the packet, and the bits behind it.
abbrev pub header_bits : List ℕ
header_bits = byte_bits 32 ++ (byte_bits 0 ++ (0 ∷ 0 ∷ 0 ∷ 0 ∷ 0 ∷ 0 ∷ 1 ∷ []))

alac_bits-header_bits :
    (pcm : List ℕ) → alac_bits pcm ≡ header_bits ++ (sample_bits pcm ++ (1 ∷ 1 ∷ 1 ∷ []))
unfolding alac_bits put_bits
alac_bits-header_bits pcm = refl

alac_bits-AreBits : (pcm : List ℕ) → AreBits (alac_bits pcm)
unfolding put_bits
alac_bits-AreBits pcm = subst AreBits (sym (alac_bits-header_bits pcm)) (
    append-AreBits header_bits (sample_bits pcm ++ (1 ∷ 1 ∷ 1 ∷ [])) (put_bits-AreBits 23 1048577) (
      append-AreBits (sample_bits pcm) (1 ∷ 1 ∷ 1 ∷ []) (sample_bits-AreBits pcm)
        (omega arith, (omega arith, (omega arith, tt)))))

length-pack : (bits : List ℕ) → length (pack bits) ≡ (length bits + 7) / 8
unfolding pack
length-pack [] = refl
length-pack (b7 ∷ []) = refl
length-pack (b7 ∷ b6 ∷ []) = refl
length-pack (b7 ∷ b6 ∷ b5 ∷ []) = refl
length-pack (b7 ∷ b6 ∷ b5 ∷ b4 ∷ []) = refl
length-pack (b7 ∷ b6 ∷ b5 ∷ b4 ∷ b3 ∷ []) = refl
length-pack (b7 ∷ b6 ∷ b5 ∷ b4 ∷ b3 ∷ b2 ∷ []) = refl
length-pack (b7 ∷ b6 ∷ b5 ∷ b4 ∷ b3 ∷ b2 ∷ b1 ∷ []) = refl
length-pack (b7 ∷ b6 ∷ b5 ∷ b4 ∷ b3 ∷ b2 ∷ b1 ∷ b0 ∷ bits) =
    let rest : length (pack bits) ≡ (length bits + 7) / 8 = length-pack bits in omega arith

length-sample_bits :
    (n : ℕ) (pcm : List ℕ)
    → length pcm ≡ n * 2
    → length (sample_bits pcm ++ (1 ∷ 1 ∷ 1 ∷ [])) ≡ n * 16 + 3
unfolding sample_bits put_bits
length-sample_bits zero [] e = refl
length-sample_bits zero (b ∷ pcm) e = absurd (omega arith)
length-sample_bits (suc n) [] e = absurd (omega arith)
length-sample_bits (suc n) (b ∷ []) e = absurd (omega arith)
length-sample_bits (suc n) (low ∷ high ∷ pcm) e =
    let rest : length (sample_bits pcm ++ (1 ∷ 1 ∷ 1 ∷ [])) ≡ n * 16 + 3 =
      length-sample_bits n pcm (omega arith) in
    omega arith

length-alac :
    (n : ℕ) (pcm : List ℕ) → length pcm ≡ n * 2 → length (alac pcm) ≡ (23 + n * 16 + 3 + 7) / 8
unfolding alac
length-alac n pcm e =
    let bits : length (alac_bits pcm) ≡ 23 + n * 16 + 3 =
      ap length (alac_bits-header_bits pcm) ∙ rw (length-sample_bits n pcm e) (omega arith) in
    length-pack (alac_bits pcm) ∙ omega arith

-- For the bytes of n samples of 16 bits: the ALAC packet has the bytes that the code allocates for it and no more,
-- its first 23 bits are the header of a verbatim element, and the samples are read back from the bits behind.
pub read_samples-alac :
    (n : ℕ) (pcm : List ℕ)
    → All (λ b. b < 256) pcm
    → length pcm ≡ n * 2
    → (take 23 (unpack (alac pcm)) ≡ header_bits)
      × (read_samples n (drop 23 (unpack (alac pcm))) ≡ pcm)
      × (length (alac pcm) ≡ (23 + n * 16 + 3 + 7) / 8)
unfolding alac
read_samples-alac n pcm a e =
    let (rest, unpacked) = unpack-pack (alac_bits pcm) (alac_bits-AreBits pcm) in
    let whole : unpack (pack (alac_bits pcm))
        ≡ header_bits ++ (sample_bits pcm ++ (1 ∷ 1 ∷ 1 ∷ rest)) =
      unpacked
      ∙ ap (λ x. x ++ rest) (alac_bits-header_bits pcm)
      ∙ ap (λ x. header_bits ++ x) (append_assoc (sample_bits pcm) (1 ∷ 1 ∷ 1 ∷ []) rest) in
    (
      ap (take 23) whole,
      ap (λ x. read_samples n (drop 23 x)) whole
          ∙ read_samples-sample_bits n pcm (1 ∷ 1 ∷ 1 ∷ rest) a e,
      length-alac n pcm e,
    )
