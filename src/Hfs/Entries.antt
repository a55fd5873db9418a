-- ===== src/Hfs/Entries.antt =====
-- Catalog keys and catalog entries of impl/hfplus.h. Fields that the source declares const are
-- written out where their bytes are.
pub mod Order
use fsview.Base.{
  ℕ, ◌+◌, ◌-◌, ◌*◌, ◌%◌, ◌^◌, Bool, true, false, ◌&&◌, ◌||◌, bit_or, List, [], ◌∷◌, ◌++◌, map,
  length, if◌then◌else◌, ◌==◌, ltb,
}
use fsview.Hfs.Forks.{u16, u32, zeros, HfsPlusForkData, new_fork, fork_bytes, HfsPlusExtentRecord}

-- st_ino, st_size, and the seconds of st_ctim, st_mtim and st_atim.
pub record Stat : Type 0 where
  pub st_ino : ℕ
  pub st_size : ℕ
  pub st_ctim : ℕ
  pub st_mtim : ℕ
  pub st_atim : ℕ

-- S_IRALL | S_IWUSR | ( isDir ? S_IXALL | S_IFDIR : S_IFREG )
abbrev pub file_mode : Bool → ℕ
file_mode is_dir = bit_or (bit_or 0x124 0x80) (if is_dir then bit_or 0x49 0x4000 else 0x8000)

pub record HfsPlusBsdInfo : Type 0 where
  pub mode_bits : ℕ
  pub special : ℕ

abbrev pub new_bsd_info : Bool → HfsPlusBsdInfo
new_bsd_info is_dir = record { mode_bits = file_mode is_dir; special = 0 }

abbrev pub bsd_info_bytes : HfsPlusBsdInfo → List ℕ
bsd_info_bytes info = u32 99 ++ u32 99 ++ (0 ∷ 0 ∷ u16 info.mode_bits) ++ u32 info.special

pub record Point : Type 0 where
  pub v : ℕ
  pub h : ℕ

abbrev pub point_bytes : Point → List ℕ
point_bytes p = u16 p.v ++ u16 p.h

pub record Rect : Type 0 where
  pub top : ℕ
  pub left : ℕ
  pub bottom : ℕ
  pub right : ℕ

abbrev pub rect_bytes : Rect → List ℕ
rect_bytes r = u16 r.top ++ u16 r.left ++ u16 r.bottom ++ u16 r.right

abbrev pub origin : Point
origin = record { v = 0; h = 0 }

abbrev pub no_bounds : Rect
no_bounds = record { top = 0; left = 0; bottom = 0; right = 0 }

pub record FileInfo : Type 0 where
  pub file_type : ℕ
  pub file_creator : ℕ

abbrev pub file_info_bytes : FileInfo → List ℕ
file_info_bytes info =
    u32 info.file_type ++ u32 info.file_creator ++ u16 0 ++ point_bytes origin ++ zeros 2

abbrev pub extended_file_info_bytes : List ℕ
extended_file_info_bytes = zeros 8 ++ u16 0 ++ zeros 2 ++ u32 0

abbrev pub folder_info_bytes : List ℕ
folder_info_bytes = rect_bytes no_bounds ++ u16 0 ++ point_bytes origin ++ zeros 2

abbrev pub extended_folder_info_bytes : Point → List ℕ
extended_folder_info_bytes scroll = point_bytes scroll ++ zeros 4 ++ u16 0 ++ zeros 2 ++ u32 0

-- The seconds since the start of 1904 of a time since the one of 1970.
unfoldable pub date_from_ts : ℕ → ℕ
date_from_ts tv_sec = (2082844800 + tv_sec) % 2 ^ 32

pub record HfsPlusCatalogEntry : Type 0 where
  pub entry_type : ℕ
  pub flags : ℕ
  pub valence : ℕ
  pub node_id : ℕ
  pub create_date : ℕ
  pub content_mod_date : ℕ
  pub attribute_mod_date : ℕ
  pub access_date : ℕ
  pub backup_date : ℕ
  pub permissions : HfsPlusBsdInfo

abbrev pub new_entry : Bool → HfsPlusCatalogEntry
new_entry is_dir = record {
  entry_type = if is_dir then 1 else 2;
  flags = if is_dir then 0 else 2;
  valence = 0;
  node_id = 0;
  create_date = 0;
  content_mod_date = 0;
  attribute_mod_date = 0;
  access_date = 0;
  backup_date = 0;
  permissions = new_bsd_info is_dir;
}

unfoldable pub set_times : Stat → HfsPlusCatalogEntry → HfsPlusCatalogEntry
unfolding date_from_ts
set_times st entry = record entry {
  create_date = date_from_ts st.st_ctim;
  attribute_mod_date = date_from_ts st.st_ctim;
  content_mod_date = date_from_ts st.st_mtim;
  access_date = date_from_ts st.st_atim;
  backup_date = 0;
}

abbrev pub catalog_entry_bytes : HfsPlusCatalogEntry → List ℕ
catalog_entry_bytes e =
    u16 e.entry_type
    ++ u16 e.flags
    ++ u32 e.valence
    ++ u32 e.node_id
    ++ u32 e.create_date
    ++ u32 e.content_mod_date
    ++ u32 e.attribute_mod_date
    ++ u32 e.access_date
    ++ u32 e.backup_date
    ++ bsd_info_bytes e.permissions

pub record HfsPlusCatalogFolder : Type 0 where
  pub folder_base : HfsPlusCatalogEntry
  pub scroll_position : Point
  pub folder_encoding : ℕ
  pub folder_count : ℕ

-- The constructor takes a UInt16.
unfoldable pub new_folder : ℕ → HfsPlusCatalogFolder
new_folder entries = record {
  folder_base = record (new_entry true) { valence = entries % 2 ^ 16 };
  scroll_position = origin;
  folder_encoding = 0;
  folder_count = 0;
}

unfoldable pub set_sub_folder_count : ℕ → HfsPlusCatalogFolder → HfsPlusCatalogFolder
set_sub_folder_count entries folder = record folder {
  folder_count = entries % 2 ^ 32;
  folder_base = record (folder.folder_base) { flags = bit_or folder.folder_base.flags 16 };
}

unfoldable pub folder_bytes : HfsPlusCatalogFolder → List ℕ
folder_bytes f =
    catalog_entry_bytes f.folder_base
    ++ folder_info_bytes
    ++ extended_folder_info_bytes f.scroll_position
    ++ u32 f.folder_encoding
    ++ u32 f.folder_count

pub record HfsPlusCatalogFile : Type 0 where
  pub file_base : HfsPlusCatalogEntry
  pub user_info : FileInfo
  pub file_encoding : ℕ
  pub data_fork : HfsPlusForkData
  pub resource_fork : HfsPlusForkData

unfoldable pub new_file : HfsPlusCatalogFile
new_file = record {
  file_base = new_entry false;
  user_info = record { file_type = 0; file_creator = 0 };
  file_encoding = 0;
  data_fork = new_fork;
  resource_fork = new_fork;
}

unfoldable pub file_bytes : HfsPlusCatalogFile → List ℕ
file_bytes f =
    catalog_entry_bytes f.file_base
    ++ file_info_bytes f.user_info
    ++ extended_file_info_bytes
    ++ u32 f.file_encoding
    ++ zeros 4
    ++ fork_bytes f.data_fork
    ++ fork_bytes f.resource_fork

-- The name of a NamedRecord follows its data; `name_length` is nodeName.length.
pub record HfsPlusCatalogThread : Type 0 where
  pub thread_type : ℕ
  pub thread_parent_id : ℕ
  pub thread_name_length : ℕ

abbrev pub new_thread : Bool → HfsPlusCatalogThread
new_thread is_dir = record {
  thread_type = if is_dir then 3 else 4;
  thread_parent_id = 0;
  thread_name_length = 0;
}

abbrev pub thread_bytes : HfsPlusCatalogThread → List ℕ
thread_bytes t = u16 t.thread_type ++ zeros 2 ++ u32 t.thread_parent_id ++ u16 t.thread_name_length

pub record HfsPlusCatalogKey : Type 0 where
  pub key_length : ℕ
  pub parent_id : ℕ
  pub key_name_length : ℕ

abbrev pub catalog_key_bytes : HfsPlusCatalogKey → List ℕ
catalog_key_bytes k = u16 k.key_length ++ u32 k.parent_id ++ u16 k.key_name_length

unfoldable pub same_parent : HfsPlusCatalogKey → HfsPlusCatalogKey → Bool
same_parent a b = a.parent_id == b.parent_id

unfoldable pub parent_below : HfsPlusCatalogKey → HfsPlusCatalogKey → Bool
parent_below a b = ltb a.parent_id b.parent_id

pub record HfsPlusExtentKey : Type 0 where
  pub extent_key_length : ℕ
  pub fork_type : ℕ
  pub file_id : ℕ
  pub first_block : ℕ

abbrev pub extent_key_bytes : HfsPlusExtentKey → List ℕ
extent_key_bytes k =
    u16 k.extent_key_length ++ (k.fork_type % 256 ∷ 0 ∷ u32 k.file_id) ++ u32 k.first_block

unfoldable pub same_extent_key : HfsPlusExtentKey → HfsPlusExtentKey → Bool
same_extent_key a b =
    (a.file_id == b.file_id) && (a.fork_type == b.fork_type) && (a.first_block == b.first_block)

unfoldable pub extent_key_below : HfsPlusExtentKey → HfsPlusExtentKey → Bool
extent_key_below a b =
    ltb a.file_id b.file_id
    || ((a.file_id == b.file_id) && ltb a.fork_type b.fork_type)
    || ((a.file_id == b.file_id) && (a.fork_type == b.fork_type) && ltb a.first_block b.first_block)
