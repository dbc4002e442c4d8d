-- ===== src/Airplay/Dns.antt =====
-- `dnsName`, `query` and `dnsRecords` of internal/airplay/discovery.go. A message is the list of its bytes.
pub mod Names
use harmonia_server.Prelude.{
  ℕ, zero, suc, ◌+◌, ◌*◌, ◌/◌, ◌%◌, Bool, true, ◌||◌, ◌&&◌, List, [], ◌∷◌, ◌++◌, Option, none, some,
  if◌then◌else◌, ltb, leb, ◌==◌, length, take, drop, get_or,
}
use harmonia_server.Prelude.Runes.{split_at, join_with, trim_suffix}

-- A round of the reading of a name: where it stands, the labels so far and, after the first pointer, where
-- the name ends.
pub data NameRound : Type 0 where
  at_label : ℕ → List (List ℕ) → Option ℕ → NameRound
  named : List (List ℕ) → ℕ → NameRound
  no_name : NameRound

unfoldable pub end_or : Option ℕ → ℕ → ℕ
end_or none p = p
end_or (some next) p = next

unfoldable pub follow : ℕ → ℕ → List (List ℕ) → Option ℕ → List ℕ → NameRound
follow p n labels next [] = no_name
follow p n labels next (low ∷ rest) =
    at_label (n % 64 * 256 + low) labels (some (end_or next (p + 2)))

unfoldable pub read_label : ℕ → List (List ℕ) → Option ℕ → List ℕ → NameRound
read_label p labels next [] = no_name
read_label p labels next (n ∷ rest) =
    if n == 0
    then named labels (end_or next (p + 1))
    else (if leb 192 n
        then follow p n labels next rest
        else (if ltb 63 n || ltb (length rest) n
            then no_name
            else at_label (p + 1 + n) (labels ++ (take n rest ∷ [])) next))

unfoldable pub name_round : List ℕ → NameRound → NameRound
name_round b (at_label p labels next) = read_label p labels next (drop p b)
name_round b (named labels end) = named labels end
name_round b no_name = no_name

-- The name with the dot at its end, and the offset after it.
unfoldable pub end_name : NameRound → Option (List ℕ × ℕ)
end_name (at_label p labels next) = none
end_name (named labels end) = some (join_with (46 ∷ []) labels ++ (46 ∷ []), end)
end_name no_name = none

unfoldable pub name_rounds : List ℕ → ℕ → NameRound → Option (List ℕ × ℕ)
name_rounds b zero state = end_name state
name_rounds b (suc rounds) state = name_rounds b rounds (name_round b state)

unfoldable pub dns_name : List ℕ → ℕ → Option (List ℕ × ℕ)
dns_name b p = name_rounds b 128 (at_label p [] none)

-- Numbers of two bytes, the high one first.
unfoldable pub big_16 : ℕ → List ℕ → ℕ
big_16 p b = get_or b p 0 * 256 + get_or b (p + 1) 0

unfoldable pub put_16 : ℕ → List ℕ
put_16 n = (n / 256 % 256) ∷ (n % 256) ∷ []

unfoldable pub labels_fit : List (List ℕ) → Bool
labels_fit [] = true
labels_fit (x ∷ xs) = leb (length x) 63 && labels_fit xs

unfoldable pub put_labels : List (List ℕ) → List ℕ
put_labels [] = []
put_labels (x ∷ xs) = (length x ∷ x) ++ put_labels xs

-- One question; none where a label is too long, as a nil slice.
unfoldable pub query : List ℕ → ℕ → Option (List ℕ)
query name typ =
    let labels = split_at 46 (trim_suffix (46 ∷ []) name) in
    if labels_fit labels
    then some (
        (0 ∷ 0 ∷ 0 ∷ 0 ∷ 0 ∷ 1 ∷ 0 ∷ 0 ∷ 0 ∷ 0 ∷ 0 ∷ 0 ∷ [])
        ++ (put_labels labels ++ ((0 ∷ put_16 typ) ++ put_16 0x8001)))
    else none

pub record DnsRecord : Type 0 where
  pub name : List ℕ
  pub typ : ℕ
  pub ttl : ℕ
  pub data_bytes : List ℕ
  pub target : List ℕ
  pub port : ℕ

-- After a question or a record; `lower` is `strings.ToLower`.
unfoldable pub skip_named : List ℕ → Option (List ℕ × ℕ) → Option ℕ
skip_named b none = none
skip_named b (some (name, end)) = if ltb (length b) (end + 4) then none else some (end + 4)

unfoldable pub question_round : List ℕ → Option ℕ → Option ℕ
question_round b none = none
question_round b (some p) = skip_named b (dns_name b p)

unfoldable pub skip_questions : List ℕ → ℕ → Option ℕ → Option ℕ
skip_questions b zero state = state
skip_questions b (suc count) state = skip_questions b count (question_round b state)

unfoldable pub with_target : DnsRecord → Option (List ℕ × ℕ) → Option DnsRecord
with_target r none = none
with_target r (some (target, end)) = some (record r { target = target })

-- The data of a pointer is a name; that of a service is its port and, six bytes on, a name.
unfoldable pub read_record_data : List ℕ → ℕ → DnsRecord → Option DnsRecord
read_record_data b p r =
    if r.typ == 12
    then with_target r (dns_name b p)
    else (if r.typ == 33
        then (if ltb (length r.data_bytes) 7
            then none
            else with_target (record r { port = big_16 (p + 4) b }) (dns_name b (p + 6)))
        else some r)

unfoldable pub add_record : ℕ → List DnsRecord → Option DnsRecord → Option (ℕ × List DnsRecord)
add_record p out none = none
add_record p out (some r) = some (p, out ++ (r ∷ []))

unfoldable pub read_record :
    (List ℕ → List ℕ) → List ℕ → List DnsRecord → Option (List ℕ × ℕ) → Option (ℕ × List DnsRecord)
read_record lower b out none = none
read_record lower b out (some (name, end)) =
    let n = big_16 (end + 8) b in
    let p = end + 10 in
    let r : DnsRecord = record {
      name = lower name;
      typ = big_16 end b;
      ttl = big_16 (end + 4) b * 65536 + big_16 (end + 6) b;
      data_bytes = take n (drop p b);
      target = [];
      port = 0;
    } in
    if ltb (length b) (end + 10) || ltb (length b) (p + n)
    then none
    else add_record (p + n) out (read_record_data b p r)

unfoldable pub record_round :
    (List ℕ → List ℕ) → List ℕ → Option (ℕ × List DnsRecord) → Option (ℕ × List DnsRecord)
record_round lower b none = none
record_round lower b (some (p, out)) = read_record lower b out (dns_name b p)

unfoldable pub read_records :
    (List ℕ → List ℕ) → List ℕ → ℕ → Option (ℕ × List DnsRecord) → Option (ℕ × List DnsRecord)
read_records lower b zero state = state
read_records lower b (suc count) state = read_records lower b count (record_round lower b state)

unfoldable pub only_records : Option (ℕ × List DnsRecord) → Option (List DnsRecord)
only_records none = none
only_records (some (p, out)) = some out

unfoldable pub records_after : (List ℕ → List ℕ) → List ℕ → ℕ → Option ℕ → Option (List DnsRecord)
records_after lower b count none = none
records_after lower b count (some p) = only_records (read_records lower b count (some (p, [])))

-- No records where the message is not well formed.
unfoldable pub dns_records : (List ℕ → List ℕ) → List ℕ → Option (List DnsRecord)
dns_records lower b =
    let questions = big_16 4 b in
    let count = big_16 6 b + big_16 8 b + big_16 10 b in
    if ltb (length b) 12 || ltb 256 questions || ltb 1024 count
    then none
    else records_after lower b count (skip_questions b questions (some 12))
