-- ===== src/Fat/Entry.antt =====
-- FatTime, FatDate and DirectoryEntry of impl/vfat32.h and impl/vfat32.cpp. What localtime_r answers
-- for a time is the parameter `local_time`.
pub mod Cluster
use fsview.Base.{
  ℕ, ◌+◌, ◌-◌, ◌*◌, ◌/◌, ◌%◌, ◌^◌, bit_and, bit_or, Bool, true, false, not, List, [], ◌∷◌, ◌++◌,
  if◌then◌else◌, ◌==◌, replicate,
}
use fsview.Endian.{lsb}

abbrev pub folder_attribute : ℕ
folder_attribute = 2 ^ 4

abbrev pub label_attribute : ℕ
label_attribute = 2 ^ 3

-- A struct tm: the month counts from 0, and the year from 1900.
pub record Tm : Type 0 where
  pub tm_sec : ℕ
  pub tm_min : ℕ
  pub tm_hour : ℕ
  pub tm_mday : ℕ
  pub tm_mon : ℕ
  pub tm_year : ℕ

-- A struct timespec, and the seconds and nanoseconds of a struct stat's times.
pub record Timespec : Type 0 where
  pub tv_sec : ℕ
  pub tv_nsec : ℕ

pub record FatTime : Type 0 where
  pub bsecs : ℕ
  pub mins : ℕ
  pub hours : ℕ

unfoldable pub set_time_tm : Tm → FatTime
set_time_tm t = record {
  bsecs = t.tm_sec / 2 % 2 ^ 5;
  mins = t.tm_min % 2 ^ 6;
  hours = t.tm_hour % 2 ^ 5;
}

abbrev pub time_hword : FatTime → ℕ
time_hword time = time.bsecs + 2 ^ 5 * time.mins + 2 ^ 11 * time.hours

pub record FatDate : Type 0 where
  pub mday : ℕ
  pub month : ℕ
  pub year : ℕ

-- `tm_year + 1900 - 1980` in seven bits, of which 2 ^ 11 is a multiple.
unfoldable pub set_date_tm : Tm → FatDate
set_date_tm t = record {
  mday = t.tm_mday % 2 ^ 5;
  month = (t.tm_mon + 1) % 2 ^ 4;
  year = (t.tm_year + 1900 + 2 ^ 11 - 1980) % 2 ^ 7;
}

abbrev pub date_hword : FatDate → ℕ
date_hword date = date.mday + 2 ^ 5 * date.month + 2 ^ 9 * date.year

pub record DirectoryEntry : Type 0 where
  pub base_name : List ℕ
  pub type_name : List ℕ
  pub attrs : ℕ
  pub cases : ℕ
  pub csecs : ℕ
  pub ctime : ℕ
  pub cdate : ℕ
  pub adate : ℕ
  pub hi_cluster_id : ℕ
  pub mtime : ℕ
  pub mdate : ℕ
  pub lo_cluster_id : ℕ
  pub file_size : ℕ

-- csecs has no initial value; `garbage` is what it holds.
abbrev pub new_directory_entry : ℕ → DirectoryEntry
new_directory_entry garbage = record {
  base_name = replicate 8 32;
  type_name = replicate 3 32;
  attrs = 0;
  cases = 0;
  csecs = garbage;
  ctime = 0;
  cdate = 0;
  adate = 0;
  hi_cluster_id = 0;
  mtime = 0;
  mdate = 0;
  lo_cluster_id = 0;
  file_size = 0;
}

unfoldable pub directory_entry_bytes : DirectoryEntry → List ℕ
directory_entry_bytes e =
    e.base_name
    ++ (e.type_name
        ++ ((e.attrs % 256 ∷ e.cases % 256 ∷ e.csecs % 256 ∷ lsb 2 e.ctime)
            ++ lsb 2 e.cdate
            ++ lsb 2 e.adate
            ++ lsb 2 e.hi_cluster_id
            ++ lsb 2 e.mtime
            ++ lsb 2 e.mdate
            ++ lsb 2 e.lo_cluster_id
            ++ lsb 4 e.file_size))

-- The loop of checksum(), a rotation to the right and an addition in eight bits.
unfoldable pub checksum_from : ℕ → List ℕ → ℕ
checksum_from crc [] = crc
checksum_from crc (b ∷ bytes) = checksum_from ((bit_and crc 1 * 2 ^ 7 + crc / 2 + b) % 256) bytes

unfoldable pub checksum : DirectoryEntry → ℕ
unfolding checksum_from
checksum e = checksum_from 0 (e.base_name ++ e.type_name)

unfoldable pub set_start_cluster : ℕ → DirectoryEntry → DirectoryEntry
set_start_cluster cluster e = record e {
  hi_cluster_id = bit_and (cluster / 2 ^ 16) 0xfff;
  lo_cluster_id = bit_and cluster 0xffff;
}

abbrev pub is_folder : DirectoryEntry → Bool
is_folder e = not (bit_and e.attrs folder_attribute == 0)

module _ (local_time : ℕ → Tm) where
  abbrev pub centis : Timespec → ℕ
  centis time = time.tv_nsec / 10 / 1000 / 1000

  -- Both variables are a FatDate, and ctime gets the date.
  unfoldable pub set_c_time : Timespec → DirectoryEntry → DirectoryEntry
  unfolding set_date_tm
  set_c_time time e =
      let t = local_time time.tv_sec in
      record e {
        csecs = (centis time + 100 * (t.tm_sec % 2)) % 256;
        cdate = date_hword (set_date_tm t);
        ctime = date_hword (set_date_tm t);
      }

  unfoldable pub set_m_time : Timespec → DirectoryEntry → DirectoryEntry
  unfolding set_date_tm
  set_m_time time e =
      let t = local_time time.tv_sec in
      record e { mdate = date_hword (set_date_tm t); mtime = date_hword (set_date_tm t) }

  unfoldable pub set_a_time : Timespec → DirectoryEntry → DirectoryEntry
  unfolding set_date_tm
  set_a_time time e = record e { adate = date_hword (set_date_tm (local_time time.tv_sec)) }

  -- st_atim, st_mtim, st_ctim and st_size.
  unfoldable pub set_stat : Timespec → Timespec → Timespec → ℕ → DirectoryEntry → DirectoryEntry
  unfolding set_a_time set_m_time set_c_time
  set_stat atim mtim ctim st_size e =
      let timed = set_c_time ctim (set_m_time mtim (set_a_time atim e)) in
      record timed { file_size = if is_folder timed then 0 else st_size % 2 ^ 32 }

unfoldable pub mark_dir : DirectoryEntry → DirectoryEntry
mark_dir e = record e { attrs = bit_or e.attrs folder_attribute; file_size = 0 }
