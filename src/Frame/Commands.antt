-- ===== src/Frame/Commands.antt =====
-- The system calls of simdisk/src/syscall.rs that change the file system.
use simple_fs_rust.Base.{◌≡◌, Bytes, ℕ, true, none, some, refl}
use simple_fs_rust.State.{CacheMethod, M, unwrap, Inode, Outcome, External, World}
use simple_fs_rust.Bitmap.{cache_to_block}
use simple_fs_rust.Cache.{sync_and_clear_cache}
use simple_fs_rust.Command.{get_absolute_path, run_command, Command}
use simple_fs_rust.Frame.{call, Within->>=, frame_rules, Within}
use simple_fs_rust.Frame.Changing.{IsWriteFrame}
use simple_fs_rust.Frame.Inodes.{check_bitmaps_and_fix-Within}
use simple_fs_rust.Frame.Queries.{
  cat-Within, cd_call-Within, users-Within, info-Within, ls-Within, copy_source-Within,
}
use simple_fs_rust.Frame.Reading.{read_inode-Within, cd-Within}
use simple_fs_rust.Frame.Trees.{
  create_file-Within, make_directory-Within, remove_directory-Within, remove_file-Within,
}
use simple_fs_rust.Inode.{read_inode}
use simple_fs_rust.SimpleFs.{set_root, force_clear, sync_all_block_cache, update_sfs}
use simple_fs_rust.Syscall.{Client}
use simple_fs_rust.Syscall

-- A frame that also holds of the writing back of everything.
pub record IsCommandFrame {B : Type 0} (ext : External B) (R : World B → World B → Type 0)
    : Type 1 where
  pub changing : IsWriteFrame ext R
  pub saves : Within R (cache_to_block ext)
  pub syncs : Within R sync_and_clear_cache
  pub roots : (root : Inode) → Within R (set_root ext root)
  pub methods : (method : CacheMethod) → Within R (Syscall.set_method ext method)

module _ {B : Type 0} {R : World B → World B → Type 0} (ext : External B)
    (F : IsCommandFrame ext R) where
  update_sfs-Within : Within R (update_sfs ext)
  unfolding update_sfs
  update_sfs-Within =
      Within->>= F.changing.reading.frame (unwrap (read_inode ext 0)) (λ root. set_root ext root)
        (search (frame_rules, F.changing.reading.frame, read_inode-Within F.changing.reading ext))
        F.roots

  pub sync_all_block_cache-Within : Within R (sync_all_block_cache ext)
  unfolding sync_all_block_cache
  sync_all_block_cache-Within =
      search (frame_rules, F.changing.reading.frame, call (F.saves), update_sfs-Within) depth 9

  temp_cd_and_do-Within :
      {A : Type 0} (path : Bytes) (f : Bytes → Inode → M B A)
      → ((name : Bytes) (inode : Inode) → Within R (f name inode))
      → Within R (Syscall.temp_cd_and_do ext path true f)
  unfolding Syscall.temp_cd_and_do
  temp_cd_and_do-Within path f h =
      search
        (
          frame_rules,
          F.changing.reading.frame,
          cd-Within F.changing.reading ext,
          sync_all_block_cache-Within,
          h,
        )
        depth 14

  current_ids-Within : (username : Bytes) → Within R (Syscall.get_current_user_ids ext username)
  unfolding Syscall.get_current_user_ids
  current_ids-Within username = search (frame_rules, F.changing.reading.frame) depth 8

  current_gid-Within : (username : Bytes) → Within R (Syscall.get_current_user_gid ext username)
  unfolding Syscall.get_current_user_gid
  current_gid-Within username = search (frame_rules, F.changing.reading.frame) depth 8

  mkdir-Within : (username path : Bytes) → Within R (Syscall.mkdir ext username path)
  unfolding Syscall.mkdir
  mkdir-Within username path =
      search
        (
          frame_rules,
          F.changing.reading.frame,
          temp_cd_and_do-Within,
          current_ids-Within,
          make_directory-Within ext F.changing,
        )
        depth 12

  rmdir-Within :
      (fuel : ℕ) (username path : Bytes) (client : Client)
      → Within R (Syscall.rmdir ext fuel username path client)
  unfolding Syscall.rmdir
  rmdir-Within fuel username path client =
      search
        (
          frame_rules,
          F.changing.reading.frame,
          temp_cd_and_do-Within,
          current_gid-Within,
          remove_directory-Within ext F.changing,
        )
        depth 12

  new_file-Within :
      (username path : Bytes) (mode : ℕ) (client : Client)
      → Within R (Syscall.new_file ext username path mode client)
  unfolding Syscall.new_file
  new_file-Within username path mode client =
      search
        (
          frame_rules,
          F.changing.reading.frame,
          temp_cd_and_do-Within,
          current_ids-Within,
          create_file-Within ext F.changing,
        )
        depth 12

  del-Within : (username path : Bytes) → Within R (Syscall.del ext username path)
  unfolding Syscall.del
  del-Within username path =
      search
        (
          frame_rules,
          F.changing.reading.frame,
          temp_cd_and_do-Within,
          current_gid-Within,
          remove_file-Within ext F.changing,
        )
        depth 12

  copy-Within :
      (host : Bytes → Outcome Bytes) (username source target : Bytes) (client : Client)
      → Within R (Syscall.copy ext host username source target client)
  unfolding Syscall.copy
  copy-Within host username source target client =
      search
        (
          frame_rules,
          F.changing.reading.frame,
          copy_source-Within ext F.changing.reading,
          temp_cd_and_do-Within,
          current_ids-Within,
          create_file-Within ext F.changing,
        )
        depth 12

  set_block_cache_method-Within :
      (method : Bytes) → Within R (Syscall.set_block_cache_method ext method)
  unfolding Syscall.set_block_cache_method
  set_block_cache_method-Within method =
      search (frame_rules, F.changing.reading.frame, F.methods) depth 8

  pub scheduled_sync-Within : Within R (Syscall.scheduled_sync ext)
  unfolding Syscall.scheduled_sync
  scheduled_sync-Within =
      search (frame_rules, F.changing.reading.frame, sync_all_block_cache-Within) depth 8

  pub formatting-Within :
      Within R (force_clear ext) → (username : Bytes) → Within R (Syscall.formatting ext username)
  unfolding Syscall.formatting
  formatting-Within h username =
      search (frame_rules, F.changing.reading.frame, current_gid-Within) depth 8

  check-Within : Within R (Syscall.check ext)
  unfolding Syscall.check
  check-Within = check_bitmaps_and_fix-Within ext F.changing

  -- The command was `formatting`, for which it is given.
  pub run_command-Within :
      (host : Bytes → Outcome Bytes) (fuel : ℕ) (username cwd : Bytes) (client : Client)
      (c : Command)
      → (c ≡ Command.formatting → Within R (force_clear ext))
      → Within R (run_command ext host fuel username cwd client c)
  unfolding run_command
  run_command-Within host fuel username cwd client (Command.dir none detail) h =
      ls-Within ext F.changing.reading username cwd detail
  run_command-Within host fuel username cwd client (Command.dir (some path) detail) h =
      ls-Within ext F.changing.reading username (get_absolute_path cwd path) detail
  run_command-Within host fuel username cwd client Command.info h =
      info-Within ext F.changing.reading
  run_command-Within host fuel username cwd client Command.check h =
      search (frame_rules, F.changing.reading.frame, check-Within) depth 8
  run_command-Within host fuel username cwd client Command.users h =
      users-Within ext F.changing.reading username
  run_command-Within host fuel username cwd client Command.formatting h =
      search (frame_rules, F.changing.reading.frame, formatting-Within (h refl)) depth 8
  run_command-Within host fuel username cwd client (Command.cd path) h =
      search (frame_rules, F.changing.reading.frame, cd_call-Within ext F.changing.reading) depth 8
  run_command-Within host fuel username cwd client (Command.md path) h =
      search (frame_rules, F.changing.reading.frame, mkdir-Within) depth 8
  run_command-Within host fuel username cwd client (Command.rd path) h =
      search (frame_rules, F.changing.reading.frame, rmdir-Within) depth 8
  run_command-Within host fuel username cwd client (Command.newfile path) h =
      search (frame_rules, F.changing.reading.frame, new_file-Within) depth 8
  run_command-Within host fuel username cwd client (Command.cat path) h =
      cat-Within ext F.changing.reading (get_absolute_path cwd path)
  run_command-Within host fuel username cwd client (Command.del path) h =
      search (frame_rules, F.changing.reading.frame, del-Within) depth 8
  run_command-Within host fuel username cwd client (Command.setcache method) h =
      search (frame_rules, F.changing.reading.frame, set_block_cache_method-Within) depth 8
  run_command-Within host fuel username cwd client (Command.copy source target) h =
      search (frame_rules, F.changing.reading.frame, copy-Within) depth 8
