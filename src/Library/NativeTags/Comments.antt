-- ===== src/Library/NativeTags/Comments.antt =====
-- The comments that a writer puts in a block of FLAC or a packet of Ogg are those that are read.
use harmonia_server.Prelude.{
  ℕ, ◌/◌, ◌%◌, ◌<◌, ◌≡◌, refl, ap, ◌∙◌, false, ◌||◌, List, [], ◌∷◌, ◌++◌, some, arith, ltb, length,
  All, length-append, take-append, drop-append, append_assoc,
}
use harmonia_server.Library.NativeTags.{
  Tags, read, add_native_tag, little_32, take_field, comment_pair, add_comment, and_left,
  take_comment, read_field, read_fields, only_tags, read_counted, read_comments,
}
use harmonia_server.Library.NativeTags.Encodings.{decode_utf8}

abbrev put_32 : ℕ → List ℕ
put_32 n = (n % 256) ∷ (n / 256 % 256) ∷ (n / 65536 % 256) ∷ (n / 16777216 % 256) ∷ []

abbrev pub put_field : List ℕ → List ℕ
put_field v = put_32 (length v) ++ v

-- A comment in UTF-8 with its key and value.
pub record Comment : Type 0 where
  pub bytes : List ℕ
  pub key : List ℕ
  pub value : List ℕ

abbrev pub IsComment : Comment → Type 0
IsComment c =
    (comment_pair (decode_utf8 c.bytes) ≡ some (c.key, c.value)) × (length c.bytes < 4294967296)

abbrev pub put_fields : List Comment → List ℕ
put_fields [] = []
put_fields (c ∷ cs) = put_field c.bytes ++ put_fields cs

abbrev pub write_comments : List ℕ → List Comment → List ℕ
write_comments vendor cs = put_field vendor ++ (put_32 (length cs) ++ put_fields cs)

abbrev pub add_comments : (ℕ → ℕ) → List Comment → Tags → Tags
add_comments lower [] tags = tags
add_comments lower (c ∷ cs) tags = add_comments lower cs (add_native_tag lower c.key c.value tags)

little_32-put_32 : (n : ℕ) (b : List ℕ) → n < 4294967296 → little_32 (put_32 n ++ b) ≡ n
unfolding little_32
little_32-put_32 n b h = omega arith

take_field-put_field :
    (v b : List ℕ) → length v < 4294967296 → take_field (put_field v ++ b) ≡ some (v, b)
unfolding take_field
take_field-put_field v b h =
    let whole : List ℕ = put_32 (length v) ++ (v ++ b) in
    let long : (ltb (length whole) 4 || ltb (length (v ++ b)) (length v)) ≡ false =
      ground (arith, length-append v b) in
    rw (little_32-put_32 (length v) (v ++ b) h, long, take-append v b, drop-append v b) refl

read_field-put_field :
    (lower : ℕ → ℕ) (c : Comment) (b : List ℕ) (tags : Tags)
    → IsComment c
    → read_field lower (read (put_field c.bytes ++ b, tags))
      ≡ read (b, add_native_tag lower c.key c.value tags)
unfolding read_field take_comment and_left add_comment
read_field-put_field lower c b tags a = rw (take_field-put_field c.bytes b a.1, a.0) refl

read_fields-put_fields :
    (lower : ℕ → ℕ) (cs : List Comment) (rest : List ℕ) (tags : Tags)
    → All IsComment cs
    → read_fields lower (length cs) (read (put_fields cs ++ rest, tags))
      ≡ read (rest, add_comments lower cs tags)
unfolding read_fields
read_fields-put_fields lower [] rest tags a = refl
read_fields-put_fields lower (c ∷ cs) rest tags a =
    ap (λ b. read_fields lower (length cs) (read_field lower (read (b, tags))))
      (append_assoc (put_field c.bytes) (put_fields cs) rest)
    ∙ (ap (read_fields lower (length cs))
          (read_field-put_field lower c (put_fields cs ++ rest) tags a.0)
        ∙ read_fields-put_fields lower cs rest (add_native_tag lower c.key c.value tags) a.1)

read_counted-put_fields :
    (lower : ℕ → ℕ) (vendor : List ℕ) (cs : List Comment) (rest : List ℕ) (tags : Tags)
    → length cs < 4294967296
    → All IsComment cs
    → read_counted lower (some (vendor, put_32 (length cs) ++ (put_fields cs ++ rest))) tags
      ≡ read (add_comments lower cs tags)
unfolding read_counted only_tags
read_counted-put_fields lower vendor cs rest tags n a =
    let long : ltb (length (put_32 (length cs) ++ (put_fields cs ++ rest))) 4 ≡ false =
      ground arith in
    rw
      (
        long,
        little_32-put_32 (length cs) (put_fields cs ++ rest) n,
        read_fields-put_fields lower cs rest tags a,
      )
      refl

-- A block of comments is read to its end, whatever follows it: each comment adds its value under its key, in
-- the order of the block, if each is `key=value` in UTF-8 and all lengths fit in 32 bits.
pub read_comments-write_comments :
    (lower : ℕ → ℕ) (vendor : List ℕ) (cs : List Comment) (rest : List ℕ) (tags : Tags)
    → length vendor < 4294967296
    → length cs < 4294967296
    → All IsComment cs
    → read_comments lower (write_comments vendor cs ++ rest) tags
      ≡ read (add_comments lower cs tags)
unfolding read_comments
read_comments-write_comments lower vendor cs rest tags h n a =
    ap (λ b. read_counted lower (take_field b) tags)
      (append_assoc (put_field vendor) (put_32 (length cs) ++ put_fields cs) rest)
    ∙ (ap (λ field. read_counted lower field tags)
          (take_field-put_field vendor (put_32 (length cs) ++ (put_fields cs ++ rest)) h)
        ∙ read_counted-put_fields lower vendor cs rest tags n a)
