-- ===== src/Frame/Queries.antt =====
-- The system calls of simdisk/src/syscall.rs that only read.
use simple_fs_rust.Base.{List, Bool, Bytes, [], ◌∷◌, false}
use simple_fs_rust.State.{M, Inode, Outcome, External, World}
use simple_fs_rust.Dirent.{LeveledDirent}
use simple_fs_rust.Frame.{call, frame_rules, Within}
use simple_fs_rust.Frame.Reading.{
  cd-Within, get_all_dirent-Within, get_file_content-Within, read_inode-Within, IsReadFrame,
}
use simple_fs_rust.Syscall.{Client}
use simple_fs_rust.Syscall

-- The calls that only read.
module _ {B : Type 0} {R : World B → World B → Type 0} (ext : External B) (F : IsReadFrame R) where
  query_at-Within :
      {A : Type 0} (path : Bytes) (f : Bytes → Inode → M B A)
      → ((name : Bytes) (inode : Inode) → Within R (f name inode))
      → Within R (Syscall.temp_cd_and_do ext path false f)
  unfolding Syscall.temp_cd_and_do
  query_at-Within path f h = search (frame_rules, F.frame, cd-Within F ext, h) depth 12

  ls_loop-Within :
      (username : Bytes) (detail : Bool) (es : List LeveledDirent)
      → Within R (Syscall.ls_loop ext username detail es)
  unfolding Syscall.ls_loop
  ls_loop-Within username detail [] = search (frame_rules, F.frame)
  ls_loop-Within username detail (e ∷ es) =
      search
        (frame_rules, F.frame, read_inode-Within F ext, call (ls_loop-Within username detail es))
        depth 14

  pub ls-Within :
      (username path : Bytes) (detail : Bool) → Within R (Syscall.ls ext username path detail)
  unfolding Syscall.ls
  ls-Within username path detail =
      search (frame_rules, F.frame, query_at-Within, get_all_dirent-Within F ext, ls_loop-Within)
        depth 12

  pub info-Within : Within R (Syscall.info ext)
  unfolding Syscall.info
  info-Within = search (frame_rules, F.frame)

  pub cd_call-Within : (path : Bytes) → Within R (Syscall.cd ext path)
  unfolding Syscall.cd
  cd_call-Within path = search (frame_rules, F.frame, cd-Within F ext) depth 8

  pub cat-Within : (path : Bytes) → Within R (Syscall.cat ext path)
  unfolding Syscall.cat
  cat-Within path =
      search (frame_rules, F.frame, query_at-Within, get_file_content-Within F ext) depth 8

  pub users-Within : (username : Bytes) → Within R (Syscall.get_users_info ext username)
  unfolding Syscall.get_users_info
  users-Within username = search (frame_rules, F.frame) depth 8

  pub copy_source-Within :
      (host : Bytes → Outcome Bytes) (source : Bytes)
      → Within R (Syscall.copy_source ext host source)
  unfolding Syscall.copy_source
  copy_source-Within host source =
      search (frame_rules, F.frame, query_at-Within, get_file_content-Within F ext) depth 8
