-- ===== src/Names.antt =====
-- impl/unique.h and impl/unique.cpp: the checksum for labels, the naming rules of CDFS and FAT, and
-- the pool that makes names unique. A name is the list of its characters. `none` is undefined
-- behaviour, or a loop that has used up its fuel.
pub mod Table
pub mod Order
pub mod Crc
pub mod Rule
pub mod Ends
pub mod Pool
mod Tests
use fsview.Base.{
  ℕ, zero, suc, ◌+◌, ◌-◌, ◌*◌, ◌/◌, ◌%◌, ◌^◌, min, Bool, true, false, not, ◌&&◌, ◌||◌, Option, none,
  some, List, [], ◌∷◌, ◌++◌, bit_xor, if◌then◌else◌, ◌==◌, ltb, leb, ◌>>=◌, length, take, drop,
  get_elem?,
}
use fsview.Base.Words.{sub64}
use fsview.Text.{Unicode, un_char}
use fsview.Names.Table.{legacy_crc}

-- One round of Crc32. Where char is signed, a byte of 128 or more indexes outside of the table.
unfoldable pub crc_step : ℕ → ℕ → Option ℕ
crc_step crc c = do
  t ← if leb 128 c then none else get_elem? legacy_crc (bit_xor (crc % 256) c)
  some (bit_xor t (crc / 256))

unfoldable pub crc_from : ℕ → List ℕ → Option ℕ
unfolding crc_step
crc_from crc [] = some crc
crc_from crc (c ∷ cs) = if c == 0 then some crc else (crc_step crc c >>= (λ crc'. crc_from crc' cs))

unfoldable pub crc32 : List ℕ → Option ℕ
unfolding crc_from
crc32 str = do crc ← crc_from (2 ^ 32 - 1) str; some (2 ^ 32 - 1 - crc)

-- EnsureD and EnsureD1, as functions of the character.
unfoldable pub ensure_d : ℕ → ℕ
ensure_d wc =
    if leb 97 wc && leb wc 122
    then wc - 0x20
    else if leb 65 wc && leb wc 90
    then wc
    else if leb 48 wc && leb wc 57
    then wc
    else 95

unfoldable pub ensure_d1 : ℕ → ℕ
ensure_d1 wc =
    if ltb wc 0x20
    then un_char
    else if (wc == 42) || (wc == 47) || (wc == 92) || (wc == 58) || (wc == 59) || (wc == 63)
    then un_char
    else wc

pub record UniqName : Type 0 where
  pub conv : Unicode
  pub seps : List ℕ
  pub tran : Unicode
  pub link : Unicode
  pub is_file : Bool

abbrev pub uniq_name : Unicode → Bool → UniqName
uniq_name original file = record {
  conv = [];
  seps = [];
  tran = original;
  link = original;
  is_file = file;
}

-- The template parameters of CDFSRule.
pub record NameRule : Type 0 where
  pub sep1 : ℕ
  pub sep2 : ℕ
  pub vers : ℕ
  pub m_base : ℕ
  pub m_ext : ℕ
  pub spay : ℕ → ℕ
  pub force_dot : Bool

-- NameTrim::mBASE
abbrev pub trim_base : ℕ → ℕ → ℕ → ℕ
trim_base base ext total = if ltb base (total - ext - 1) then base else total - ext - 1

abbrev pub dos_vol_rule : NameRule
dos_vol_rule = record {
  sep1 = 46;
  sep2 = 59;
  vers = 1;
  m_base = trim_base 8 3 12;
  m_ext = 3;
  spay = ensure_d;
  force_dot = true;
}

abbrev pub pri_vol_rule : NameRule
pri_vol_rule = record {
  sep1 = 46;
  sep2 = 59;
  vers = 1;
  m_base = trim_base 24 5 30;
  m_ext = 5;
  spay = ensure_d;
  force_dot = true;
}

abbrev pub sec_vol_rule : NameRule
sec_vol_rule = record {
  sep1 = 46;
  sep2 = 59;
  vers = 1;
  m_base = trim_base 54 5 60;
  m_ext = 5;
  spay = ensure_d1;
  force_dot = false;
}

abbrev pub fat_vol_rule : NameRule
fat_vol_rule = record {
  sep1 = 46;
  sep2 = 0;
  vers = 0;
  m_base = trim_base 8 3 12;
  m_ext = 3;
  spay = ensure_d;
  force_dot = false;
}

abbrev pub last_of : Bool → Option ℕ → Option ℕ
last_of here (some pos) = some (suc pos)
last_of here none = if here then some 0 else none

-- `rfind`: the last position of a character.
unfoldable pub rfind : ℕ → Unicode → Option ℕ
rfind wc [] = none
rfind wc (c ∷ cs) = last_of (c == wc) (rfind wc cs)

-- Where the linked part ends. The difference is of type size_t: it wraps around for short names.
unfoldable pub dot_pos : ℕ → ℕ → Option ℕ → ℕ
dot_pos m_ext orig_sz none = orig_sz
dot_pos m_ext orig_sz (some pos) = if ltb pos (sub64 (sub64 orig_sz m_ext) 1) then orig_sz else pos

unfoldable pub spay_all : (ℕ → ℕ) → Unicode → Unicode
spay_all spay [] = []
spay_all spay (c ∷ cs) = spay c ∷ spay_all spay cs

unfoldable pub translit : NameRule → UniqName → UniqName
unfolding rfind dot_pos spay_all
translit rule name =
    let last : Option ℕ = if name.is_file then rfind 46 name.tran else none in
    record name {
      link = take (dot_pos rule.m_ext (length name.tran) last) name.link;
      tran = spay_all rule.spay name.tran;
    }

-- The decimal digits, the most significant one first, before `acc`. An int has ten at most.
unfoldable pub decimal : ℕ → ℕ → Unicode → Unicode
decimal zero v acc = acc
decimal (suc fuel) v acc =
    let rest = decimal fuel (v / 10) ((48 + v % 10) ∷ acc) in if v == 0 then acc else rest

unfoldable pub mix_in_var : NameRule → ℕ → UniqName → UniqName
unfolding decimal
mix_in_var rule variant name =
    let itoa : Unicode = decimal 10 variant [] in
    let base_part : ℕ = min (length name.link) (sub64 rule.m_base (length itoa)) in
    record name { conv = take base_part name.tran ++ itoa }

unfoldable pub decorate : NameRule → UniqName → UniqName
unfolding decimal
decorate rule name =
    let has_ext : Bool = ltb (length name.link) (length name.tran) in
    let with_dot : UniqName =
      if (rule.force_dot && name.is_file) || has_ext
      then record name {
        seps = name.seps ++ (length name.conv ∷ []);
        conv = name.conv ++ (rule.sep1 ∷ []);
      }
      else name in
    let with_ext : UniqName =
      if has_ext
      then record with_dot { conv = with_dot.conv ++ drop (length name.link + 1) name.tran }
      else with_dot in
    if not (rule.vers == 0) && name.is_file
    then record with_ext {
      seps = with_ext.seps ++ (length with_ext.conv ∷ []);
      conv = with_ext.conv ++ (rule.sep2 ∷ []) ++ decimal 10 rule.vers [];
    }
    else with_ext

-- Maps from names to names.
unfoldable pub same_name : Unicode → Unicode → Bool
same_name [] [] = true
same_name [] (d ∷ ds) = false
same_name (c ∷ cs) [] = false
same_name (c ∷ cs) (d ∷ ds) = (c == d) && same_name cs ds

abbrev pub NameMap : Type 0
NameMap = List (Unicode × Unicode)

unfoldable pub find_name : Unicode → NameMap → Option Unicode
unfolding same_name
find_name k [] = none
find_name k ((j, v) ∷ m) = if same_name k j then some v else find_name k m

-- `m[k] = v`: what is found is what was put in last.
abbrev pub put_name : Unicode → Unicode → NameMap → NameMap
put_name k v m = (k, v) ∷ m

pub record NamePool : Type 0 where
  pub conv_to_link : NameMap
  pub link_to_conv : NameMap

abbrev pub reuse : UniqName → Option Unicode → UniqName
reuse name none = name
reuse name (some conv) = record name { conv = conv }

unfoldable pub try_existing : NamePool → UniqName → UniqName
unfolding find_name
try_existing pool name =
    if length name.link == 0 then name else reuse name (find_name name.link pool.link_to_conv)

abbrev pub register : UniqName → NamePool → Option Unicode → Option NamePool
register name pool (some link) = none
register name pool none = some (record {
  conv_to_link = put_name name.conv name.link pool.conv_to_link;
  link_to_conv = put_name name.link name.conv pool.link_to_conv;
})

unfoldable pub try_brand_new : NamePool → UniqName → Option NamePool
unfolding find_name
try_brand_new pool name = register name pool (find_name name.conv pool.conv_to_link)

abbrev pub or_retry :
    UniqName → Option NamePool → Option (UniqName × NamePool) → Option (UniqName × NamePool)
or_retry tried none rest = rest
or_retry tried (some pool) rest = some (tried, pool)

-- The loop of fitName. `shuf` is what the shuffler answers for each attempt.
unfoldable pub vary :
    ℕ → NameRule → (ℕ → ℕ) → ℕ → NamePool → UniqName → Option (UniqName × NamePool)
unfolding mix_in_var try_brand_new
vary zero rule shuf attempt pool name = none
vary (suc fuel) rule shuf attempt pool name =
    let tried : UniqName = mix_in_var rule (shuf attempt) name in
    let rest = vary fuel rule shuf (attempt + 1) pool tried in
    or_retry tried (try_brand_new pool tried) rest

-- NamePool::fitName, without the last call, of decorate.
unfoldable pub fit_base :
    ℕ → NameRule → (ℕ → ℕ) → Unicode → Bool → NamePool → Option (UniqName × NamePool)
unfolding vary translit try_existing
fit_base fuel rule shuf orig file pool =
    let found : UniqName = try_existing pool (translit rule (uniq_name orig file)) in
    if length found.conv == 0 then vary fuel rule shuf 0 pool found else some (found, pool)

unfoldable pub fit_name :
    ℕ → NameRule → (ℕ → ℕ) → Unicode → Bool → NamePool → Option (UniqName × NamePool)
unfolding fit_base decorate
fit_name fuel rule shuf orig file pool = do
  (name, pool') ← fit_base fuel rule shuf orig file pool
  some (decorate rule name, pool')
