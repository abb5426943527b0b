-- ===== src/SimpleFs.antt =====
-- simdisk/src/simple_fs.rs: starting, formatting and reading the file system, its users, and the
-- writing back of everything (`sync_all_block_cache` of block.rs).
pub mod Restart
use simple_fs_rust.Base.{ℕ, ◌/◌, ◌==◌, not, none, some, [], if◌then◌else◌, Bytes, replicate}
use simple_fs_rust.Constants.{block_size, fs_size_bytes}
use simple_fs_rust.State.{
  Disk, Inode, User, UserInfo, UserIdGroup, SimpleFileSystem, External, Error, Outcome, ok, err, M,
  pure, fail, gets, modify, lift, unwrap, attempt, is_ok, ◌>>=◌, ◌>>◌,
}
use simple_fs_rust.Cache.{with_cache, sync_and_clear_cache}
use simple_fs_rust.Bitmap.{read_bitmaps, cache_to_block}
use simple_fs_rust.SuperBlock.{init_super_block, read_super_block, valid}
use simple_fs_rust.User.{lookup_user, init_users, read_users, sign_in, sign_up}
use simple_fs_rust.Inode.{read_inode, new_root}
use simple_fs_rust.Inode.Dealloc.{check_inodes_and_fix}
use simple_fs_rust.Objects.Remove.{check_data_and_fix}

-- `File::create` and `set_len`: all bytes are 0.
abbrev pub empty_disk : Disk
empty_disk = record { len = fs_size_bytes / block_size; blocks = λ id. replicate block_size 0 }

-- `get_users_info`, `get_user_ids` and `get_user_gid`
unfoldable pub get_users_info : ℕ → User → Outcome UserInfo
get_users_info gid users = if not (gid == 0) then err Error.not_in_root else ok (users.info)

unfoldable pub get_user_ids : Bytes → User → Outcome UserIdGroup
get_user_ids username users = elim (lookup_user username (users.info)) [
  | none ↦ err Error.no_such_user
  | some v ↦ ok (v.1)
]

unfoldable pub get_user_gid : Bytes → User → Outcome ℕ
get_user_gid username users = elim (get_user_ids username users) [
  | ok ids ↦ ok (ids.gid)
  | err e ↦ err e
  | Outcome.panic ↦ Outcome.panic
  | Outcome.diverge ↦ Outcome.diverge
]

module _ {B : Type 0} (ext : External B) where
  abbrev pub set_sfs : SimpleFileSystem → M B (Unit {0})
  set_sfs sfs = modify (λ w. record w { sfs = sfs })

  abbrev pub set_root : Inode → M B (Unit {0})
  set_root root = modify (λ w. record w { sfs = record (w.sfs) { root_inode = root } })

  -- `SimpleFileSystem::read` and `update`
  unfoldable pub read_sfs : M B (Unit {0})
  read_sfs = do
    root ← unwrap (read_inode ext 0)
    users ← unwrap (read_users ext)
    set_sfs (record { root_inode = root; user_infos = users })

  unfoldable pub update_sfs : M B (Unit {0})
  update_sfs = do root ← unwrap (read_inode ext 0); set_root root

  -- `SimpleFileSystem::init`
  unfoldable pub init_sfs : M B (Unit {0})
  init_sfs = do
    sp ← read_super_block ext
    if valid sp then (do read_sfs; unwrap (read_bitmaps ext)) else fail Error.super_block_broken

  unfoldable pub create_fs_file : M B (Unit {0})
  create_fs_file = modify (λ w. record w { disk = some empty_disk })

  -- `SimpleFileSystem::force_clear`
  unfoldable pub force_clear : M B (Unit {0})
  force_clear = do
    create_fs_file
    modify (λ w. with_cache w [])
    unwrap (read_bitmaps ext)
    init_super_block ext
    root ← new_root ext
    users ← init_users ext
    unwrap sync_and_clear_cache
    set_sfs (record { root_inode = root; user_infos = users })

  -- The start of `main`: a file system that cannot be read is made anew.
  unfoldable pub start : M B (Unit {0})
  start = do r ← attempt init_sfs; if is_ok r then pure tt else force_clear

  unfoldable pub sign_in_sfs : Bytes → Bytes → M B (Unit {0})
  sign_in_sfs username password = do
    users ← gets (λ w. w.sfs.user_infos)
    lift (sign_in username password users)

  unfoldable pub sign_up_sfs : Bytes → Bytes → M B (Unit {0})
  sign_up_sfs username password = sign_up ext username password

  unfoldable pub check_bitmaps_and_fix : M B (Unit {0})
  check_bitmaps_and_fix = do check_inodes_and_fix ext; check_data_and_fix ext

  -- `sync_all_block_cache`
  unfoldable pub sync_all_block_cache : M B (Unit {0})
  sync_all_block_cache = do cache_to_block ext; sync_and_clear_cache; update_sfs
