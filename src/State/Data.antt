-- ===== src/State/Data.antt =====
-- The structs and enums of simdisk/src: `Block`, `Inode`, `DirEntry`, `User`, `SuperBlock`, and the
-- managers behind the `lazy_static` variables. A `HashMap` is an association list.
use simple_fs_rust.Base.{ℕ, Bool, Option, List, Bytes}

-- block.rs
pub record Block : Type 0 where
  pub block_id : ℕ
  pub bytes : Bytes
  pub modified : Bool

pub data BlockLevel : Type 0 where
  direct first_indirect second_indirect : BlockLevel

pub data CacheMethod : Type 0 where
  immediately on_exit scheduled : CacheMethod

pub record BlockCacheManager : Type 0 where
  pub block_cache : List (ℕ × Block)
  pub cache_method : CacheMethod

-- bitmap.rs, over the type `B` of `bitmaps::Bitmap<8>`.
pub data BitmapType : Type 0 where
  inode data_block : BitmapType

pub record BitmapManager (B : Type 0) : Type 0 where
  pub inodes : List B
  pub datas : List B
  pub last_inode_byte_pos : ℕ
  pub last_data_byte_pos : ℕ

-- inode.rs; `FileMode` is the byte of its flags.
pub data InodeType : Type 0 where
  file directory : InodeType

abbrev pub by_type {ℓ} : {A : Type ℓ} → InodeType → A → A → A
by_type InodeType.file f d = f
by_type InodeType.directory f d = d

pub record Inode : Type 0 where
  pub inode_id : ℕ
  pub inode_type : InodeType
  pub mode : ℕ
  pub nlink : ℕ
  pub gid : ℕ
  pub uid : ℕ
  pub size : ℕ
  pub time_info : ℕ
  pub addr : List ℕ

-- dirent.rs
pub record DirEntry : Type 0 where
  pub filename : Bytes
  pub extension : Bytes
  pub is_dir : Bool
  pub inode_id : ℕ

-- user.rs: `info` maps a user name to the password and the ids.
pub record UserIdGroup : Type 0 where
  pub gid : ℕ
  pub uid : ℕ

abbrev pub UserInfo : Type 0
UserInfo = List (Bytes × (Bytes × UserIdGroup))

pub record User : Type 0 where
  pub info : UserInfo
  pub max_id : ℕ

-- super_block.rs
pub record SuperBlock : Type 0 where
  pub magic : ℕ
  pub fs_size : ℕ
  pub first_block_of_inode_bitmap : ℕ
  pub inode_bitmap_size : ℕ
  pub first_inode : ℕ
  pub inode_area_size : ℕ
  pub first_block_of_data_bitmap : ℕ
  pub data_bitmap_size : ℕ
  pub first_data_block : ℕ
  pub data_size : ℕ

-- simple_fs.rs
pub record SimpleFileSystem : Type 0 where
  pub root_inode : Inode
  pub user_infos : User

-- The host's file `SIMPLE_FS`, by whole blocks: `len` of them are there.
pub record Disk : Type 0 where
  pub len : ℕ
  pub blocks : ℕ → Bytes

-- BITMAP_MANAGER, BLOCK_CACHE_MANAGER, SFS, the file (`none` where it does not exist) and the
-- seconds that `SystemTime::now` gives.
pub record World (B : Type 0) : Type 0 where
  pub bitmaps : BitmapManager B
  pub manager : BlockCacheManager
  pub sfs : SimpleFileSystem
  pub disk : Option Disk
  pub clock : ℕ
