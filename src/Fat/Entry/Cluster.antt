-- ===== src/Fat/Entry/Cluster.antt =====
-- What is read back of a directory entry.
use fsview.Base.{
  ℕ, ◌∷◌, ◌+◌, ◌*◌, ◌/◌, ◌%◌, ◌^◌, ◌≤◌, ◌<◌, ◌≡◌, ap, arith, List, ◌++◌, length, take, drop,
  length-append, drop-append_left, drop-drop, sym, ◌∙◌,
}
use fsview.Base.Bits.{bit_and_low}
use mathlib.Core.List.{append_assoc}
use fsview.Endian.{lsb}
use fsview.Fat.Entry.{
  Tm, DirectoryEntry, directory_entry_bytes, set_start_cluster, set_date_tm, date_hword,
  set_time_tm, time_hword,
}

-- How a FAT32 driver joins the halves of the cluster.
abbrev pub start_cluster : DirectoryEntry → ℕ
start_cluster e = 2 ^ 16 * e.hi_cluster_id + e.lo_cluster_id

-- The start cluster reads back as it was set, for clusters below 2 ^ 28, which are those that an entry
-- of the table can name.
pub start_cluster-set_start_cluster :
    (cluster : ℕ) (e : DirectoryEntry)
    → cluster < 2 ^ 28
    → start_cluster (set_start_cluster cluster e) ≡ cluster
unfolding set_start_cluster
start_cluster-set_start_cluster cluster e h =
    omega (arith, bit_and_low 12 (cluster / 2 ^ 16), bit_and_low 16 cluster)

-- A date from 1980 to 2107 reads back from its packed word, as do the hour, the minute and the even
-- second of a time.
pub date_hword-set_date_tm :
    (t : Tm)
    → t.tm_mday < 32
    → t.tm_mon < 12
    → 80 ≤ t.tm_year
    → t.tm_year < 208
    → t.tm_hour < 24
    → t.tm_min < 60
    → t.tm_sec < 61
    → (date_hword (set_date_tm t) % 2 ^ 5 ≡ t.tm_mday)
      × (date_hword (set_date_tm t) / 2 ^ 5 % 2 ^ 4 ≡ t.tm_mon + 1)
      × (date_hword (set_date_tm t) / 2 ^ 9 + 1980 ≡ t.tm_year + 1900)
      × (time_hword (set_time_tm t) / 2 ^ 11 ≡ t.tm_hour)
      × (time_hword (set_time_tm t) / 2 ^ 5 % 2 ^ 6 ≡ t.tm_min)
      × (2 * (time_hword (set_time_tm t) % 2 ^ 5) ≤ t.tm_sec)
      × (t.tm_sec < 2 * (time_hword (set_time_tm t) % 2 ^ 5) + 2)
unfolding set_date_tm set_time_tm
date_hword-set_date_tm t hd hm hy hy' hh hn hs =
    (omega arith, omega arith, omega arith, omega arith, omega arith, omega arith, omega arith)

-- The bytes after the names.
abbrev fields : DirectoryEntry → List ℕ
fields e =
    (e.attrs % 256 ∷ e.cases % 256 ∷ e.csecs % 256 ∷ lsb 2 e.ctime)
    ++ lsb 2 e.cdate
    ++ lsb 2 e.adate
    ++ lsb 2 e.hi_cluster_id
    ++ lsb 2 e.mtime
    ++ lsb 2 e.mdate
    ++ lsb 2 e.lo_cluster_id
    ++ lsb 4 e.file_size

after_names :
    (n k : ℕ) (names rest whole : List ℕ)
    → whole ≡ names ++ rest
    → length names ≡ 11
    → take n (drop (11 + k) whole) ≡ take n (drop k rest)
after_names n k names rest whole e h = ap (take n) (
    drop-drop 11 k whole
    ∙ ap (λ t. drop k (drop 11 t)) e
    ∙ ap (drop k) (drop-append_left 11 names rest h))

-- A directory entry with a name of eight characters and a type of three has 32 bytes, with the
-- attributes at byte 11, the halves of the cluster at the bytes 20 and 26, and the size at byte 28.
pub directory_entry_bytes_lem :
    (e : DirectoryEntry)
    → length e.base_name ≡ 8
    → length e.type_name ≡ 3
    → (length (directory_entry_bytes e) ≡ 32)
      × (take 1 (drop 11 (directory_entry_bytes e)) ≡ lsb 1 e.attrs)
      × (take 2 (drop 20 (directory_entry_bytes e)) ≡ lsb 2 e.hi_cluster_id)
      × (take 2 (drop 26 (directory_entry_bytes e)) ≡ lsb 2 e.lo_cluster_id)
      × (take 4 (drop 28 (directory_entry_bytes e)) ≡ lsb 4 e.file_size)
unfolding directory_entry_bytes
directory_entry_bytes_lem e hb ht =
    let names = length-append e.base_name e.type_name in
    let eleven : length (e.base_name ++ e.type_name) ≡ 11 = omega (arith, names, hb, ht) in
    let rest = fields e in
    let whole = sym (append_assoc e.base_name e.type_name rest) in
    (
      omega (arith, ap length whole, length-append (e.base_name ++ e.type_name) rest, eleven),
      after_names 1 0 (e.base_name ++ e.type_name) rest (directory_entry_bytes e) whole eleven,
      after_names 2 9 (e.base_name ++ e.type_name) rest (directory_entry_bytes e) whole eleven,
      after_names 2 15 (e.base_name ++ e.type_name) rest (directory_entry_bytes e) whole eleven,
      after_names 4 17 (e.base_name ++ e.type_name) rest (directory_entry_bytes e) whole eleven,
    )
