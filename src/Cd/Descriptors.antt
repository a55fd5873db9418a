-- ===== src/Cd/Descriptors.antt =====
-- The volume descriptors of impl/cd9660.h, and what CD9660Out sets in them and plans for them. The
-- texts are the bytes of their buffers.
pub mod Headers
pub mod Layout
use fsview.Base.{
  ℕ, zero, suc, ◌+◌, ◌-◌, ◌*◌, ◌/◌, ◌%◌, ◌^◌, min, Bool, true, false, ◌&&◌, Option, none, some,
  List, [], ◌∷◌, ◌++◌, if◌then◌else◌, leb, length, take, replicate, ◌>>=◌, map,
}
use fsview.Endian.{lsb, msb}
use fsview.Extent.{Extent, mapper_bs}
use fsview.Burner.{Planner, append, pad_to}
use fsview.Hfs.Forks.{concat}
use fsview.Cd.{both, DirEntryDtTime, DirectoryEntry, new_entry, entry_bytes, zeros}
use fsview.Cd.Dates.{DateTime, ZonedTm, set_tm, cleared, date_time_bytes}

pub record GenVolDesc : Type 0 where
  pub kind : ℕ
  pub flags : ℕ
  pub system_id : List ℕ
  pub volume_id : List ℕ
  pub blocks : ℕ
  pub escape_chars : List ℕ
  pub vol_set : ℕ
  pub vol_seq : ℕ
  pub blk_sz : ℕ
  pub p_tab_sz : ℕ
  pub p_tab_lsb : ℕ
  pub p_tab_msb : ℕ
  pub root_directory : DirectoryEntry
  pub volume_set_id : List ℕ
  pub publisher_id : List ℕ
  pub prepare_by_id : List ℕ
  pub application : List ℕ
  pub copy_file : List ℕ
  pub abst_file : List ℕ
  pub bibl_file : List ℕ
  pub creation : DateTime
  pub modification : DateTime
  pub expiration : DateTime
  pub effective : DateTime

abbrev pub min_cd_sector_size : ℕ
min_cd_sector_size = 2048

abbrev pub primary_vol : ℕ
primary_vol = 1

abbrev pub supplement : ℕ
supplement = 2

abbrev pub terminator : ℕ
terminator = 255

-- VolumeDesc: the kind, "CD001", the version and the flags.
abbrev pub vol_desc_bytes : ℕ → ℕ → List ℕ
vol_desc_bytes kind flags = kind % 256 ∷ 67 ∷ 68 ∷ 48 ∷ 48 ∷ 49 ∷ 1 ∷ flags % 256 ∷ []

abbrev pub end_vol_desc_bytes : List ℕ
end_vol_desc_bytes = vol_desc_bytes terminator 0

-- The second table of each byte order stays 0.
abbrev pub number_fields : GenVolDesc → List ℕ
number_fields v =
    both 2 v.vol_set
    ++ (both 2 v.vol_seq
        ++ (both 2 v.blk_sz
            ++ (both 4 v.p_tab_sz
                ++ ((lsb 4 v.p_tab_lsb ++ lsb 4 0) ++ ((msb 4 v.p_tab_msb ++ msb 4 0))))))

abbrev pub text_fields : GenVolDesc → List ℕ
text_fields v =
    v.volume_set_id
    ++ (v.publisher_id
        ++ (v.prepare_by_id ++ (v.application ++ (v.copy_file ++ (v.abst_file ++ v.bibl_file)))))

abbrev pub date_fields : GenVolDesc → List ℕ
date_fields v =
    date_time_bytes v.creation
    ++ (date_time_bytes v.modification
        ++ (date_time_bytes v.expiration ++ date_time_bytes v.effective))

unfoldable pub gen_vol_desc_bytes : GenVolDesc → List ℕ
gen_vol_desc_bytes v =
    vol_desc_bytes v.kind v.flags
    ++ (v.system_id
        ++ (v.volume_id
            ++ (zeros 8
                ++ (both 4 v.blocks
                    ++ (v.escape_chars
                        ++ (number_fields v
                            ++ (entry_bytes v.root_directory
                                ++ (text_fields v ++ (date_fields v ++ (1 ∷ 0 ∷ []))))))))))

-- strncpy and memset of StrPad: the text up to its zero, and padding. `src` has no zero.
unfoldable pub str_pad : ℕ → ℕ → List ℕ → List ℕ
str_pad filler count src = take count src ++ replicate (count - min count (length src)) filler

-- A Text before anything is assigned to it.
abbrev pub blank : ℕ → List ℕ
blank n = replicate n 32

abbrev pub text : ℕ → List ℕ → List ℕ
text count src = str_pad 32 count src

-- GenVolDesc::GenVolDesc, at the local time `now`; `epoch` is that of the second 0, and `time` is what
-- the record of the root finds in the place of its own.
unfoldable pub new_gen_vol_desc :
    ℕ → ℕ → List ℕ → DateTime → ZonedTm → DirEntryDtTime → Option GenVolDesc
new_gen_vol_desc kind flags esc now epoch time = do
  effective ← set_tm epoch 0
  some (record {
    kind = kind;
    flags = flags;
    system_id = blank 32;
    volume_id = blank 32;
    blocks = 0;
    escape_chars = str_pad 0 32 esc;
    vol_set = 1;
    vol_seq = 1;
    blk_sz = min_cd_sector_size;
    p_tab_sz = 0;
    p_tab_lsb = 0;
    p_tab_msb = 0;
    root_directory = new_entry time;
    volume_set_id = blank 128;
    publisher_id = blank 128;
    prepare_by_id = blank 128;
    application = blank 128;
    copy_file = blank 37;
    abst_file = blank 37;
    bibl_file = blank 37;
    creation = now;
    modification = now;
    expiration = cleared;
    effective = effective;
  })

-- PriVolDesc and JolietDesc ("%/@").
abbrev pub new_pri_vol_desc : DateTime → ZonedTm → DirEntryDtTime → Option GenVolDesc
new_pri_vol_desc now epoch time = new_gen_vol_desc primary_vol 0 [] now epoch time

abbrev pub new_joliet_desc : DateTime → ZonedTm → DirEntryDtTime → Option GenVolDesc
new_joliet_desc now epoch time = new_gen_vol_desc supplement 0 (37 ∷ 47 ∷ 64 ∷ []) now epoch time

-- MapVolDesc, in which the first block is 0.
abbrev pub map_vol_desc_bytes : List ℕ → List ℕ → ℕ → List ℕ
map_vol_desc_bytes system volume blocks =
    vol_desc_bytes 3 0 ++ (system ++ (volume ++ (both 4 0 ++ both 4 blocks)))

-- A char as a char16_t: where char is signed, one of 128 or more keeps its sign.
abbrev pub widened : Bool → ℕ → ℕ
widened signed c = if signed && leb 128 c then c + 0xff00 else c

-- Fill::dilute<MSB<char16_t>>: `memcpy` of `count` bytes from `count` wide characters.
unfoldable pub dilute : Bool → ℕ → List ℕ → List ℕ
dilute signed count other = take count (concat (map (λ c. msb 2 (widened signed c)) other))

unfoldable pub copy_meta : Bool → GenVolDesc → GenVolDesc → GenVolDesc
unfolding dilute
copy_meta signed pri sec = record sec {
  system_id = dilute signed 32 pri.system_id;
  volume_id = dilute signed 32 pri.volume_id;
  volume_set_id = dilute signed 128 pri.volume_set_id;
  publisher_id = dilute signed 128 pri.publisher_id;
  prepare_by_id = dilute signed 128 pri.prepare_by_id;
  application = dilute signed 128 pri.application;
  copy_file = dilute signed 37 pri.copy_file;
  abst_file = dilute signed 37 pri.abst_file;
  bibl_file = dilute signed 37 pri.bibl_file;
}

-- The members of CD9660Out that setSize and setLabels change.
pub record Cd9660Out : Type 0 where
  pub pri_vol : GenVolDesc
  pub sec_vol : GenVolDesc
  pub map_blocks : ℕ

unfoldable pub set_block_size : ℕ → Cd9660Out → Cd9660Out
set_block_size blk_sz out = record out {
  pri_vol = record (out.pri_vol) { blk_sz = blk_sz % 2 ^ 16 };
  sec_vol = record (out.sec_vol) { blk_sz = blk_sz % 2 ^ 16 };
}

unfoldable pub set_labels : Bool → List ℕ → List ℕ → Cd9660Out → Cd9660Out
unfolding str_pad copy_meta
set_labels signed system volume out =
    let pri = record (out.pri_vol) { system_id = text 32 system; volume_id = text 32 volume } in
    record out { pri_vol = pri; sec_vol = copy_meta signed pri out.sec_vol }

unfoldable pub set_size : ℕ → Cd9660Out → Cd9660Out
set_size size out =
    let blk = size / out.pri_vol.blk_sz % 2 ^ 32 in
    record out {
      pri_vol = record (out.pri_vol) { blocks = blk };
      sec_vol = record (out.sec_vol) { blocks = blk };
      map_blocks = size / mapper_bs % 2 ^ 32;
    }

abbrev pub temp_extent : ℕ → ℕ → Extent
temp_extent bytes medium = record { offset = 0; length = bytes; medium = some medium }

-- The loop of planHeaders over the volumes, whose descriptors are at these pointers.
unfoldable pub plan_descriptors : ℕ → List ℕ → Planner → Option Planner
plan_descriptors blk_sz [] planner = some planner
plan_descriptors blk_sz (vol ∷ vols) planner = do
  (_, p1) ← append (temp_extent 883 vol) planner
  (_, p2) ← pad_to blk_sz p1
  plan_descriptors blk_sz vols p2

-- planHeaders, with the offset that it answers.
unfoldable pub plan_headers : ℕ → List ℕ → ℕ → Planner → Option (ℕ × Planner)
unfolding plan_descriptors
plan_headers blk_sz vols end_vol planner = do
  p1 ← plan_descriptors blk_sz vols planner
  (_, p2) ← append (temp_extent 8 end_vol) p1
  (_, p3) ← pad_to blk_sz p2
  some (planner.offset, p3)
