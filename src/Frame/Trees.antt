-- ===== src/Frame/Trees.antt =====
-- The making and removal of directories and files, of simdisk/src/dirent.rs and file.rs.
use simple_fs_rust.Base.{Bool, Bytes, List, ℕ, [], ◌∷◌, zero, suc}
use simple_fs_rust.State.{Inode, M, DirEntry, External, World}
use simple_fs_rust.Dirent.{LeveledDirent}
use simple_fs_rust.Dirent.Make.{make_directory}
use simple_fs_rust.Dirent.Remove.{
  each_dirent, clear_dir, dealloc_all, remove_directory, sort_dirents,
}
use simple_fs_rust.File.{create_file, remove_file}
use simple_fs_rust.Frame.{call, frame_rules, Within}
use simple_fs_rust.Frame.Changing.{
  linkat-Within, alloc_dir_inode-Within, alloc_inode-Within, unlinkat-Within, IsWriteFrame,
}
use simple_fs_rust.Frame.Inodes.{dealloc-Within}
use simple_fs_rust.Frame.Objects.{insert_object-Within}
use simple_fs_rust.Frame.Reading.{
  get_all_blocks-Within, get_all_dirent-Within, get_block_id_and_try_update-Within,
  read_inode-Within,
}
use simple_fs_rust.Frame.Removal.{remove_object-Within}
use simple_fs_rust.Name.{dirent_object}

module _ {B : Type 0} {R : World B → World B → Type 0} (ext : External B)
    (F : IsWriteFrame ext R) where
  pub make_directory-Within :
      (name : Bytes) (parent : Inode) (gid uid : ℕ)
      → Within R (make_directory ext name parent gid uid)
  unfolding make_directory
  make_directory-Within name parent gid uid =
      search
        (
          frame_rules,
          F.reading.frame,
          get_block_id_and_try_update-Within F.reading ext,
          alloc_dir_inode-Within ext F,
          linkat-Within ext F,
          insert_object-Within ext F (dirent_object ext),
        )
        depth 14

  sort_dirents-Within : (ds : List LeveledDirent) → Within R (sort_dirents ext ds)
  unfolding sort_dirents
  sort_dirents-Within [] = search (frame_rules, F.reading.frame)
  sort_dirents-Within (d ∷ ds) =
      search
        (
          frame_rules,
          F.reading.frame,
          read_inode-Within F.reading ext,
          unlinkat-Within ext F,
          call (sort_dirents-Within ds),
        )
        depth 14

  dealloc_all-Within : (ns : List Inode) → Within R (dealloc_all ext ns)
  unfolding dealloc_all
  dealloc_all-Within [] = search (frame_rules, F.reading.frame)
  dealloc_all-Within (n ∷ ns) =
      search (frame_rules, F.reading.frame, dealloc-Within ext F, call (dealloc_all-Within ns))
        depth 8

  each_dirent-Within :
      (f : DirEntry → M B (Unit {0}))
      → ((d : DirEntry) → Within R (f d))
      → (ds : List LeveledDirent) → Within R (each_dirent ext f ds)
  each_dirent-Within f h [] = search (frame_rules, F.reading.frame)
  each_dirent-Within f h (d ∷ ds) =
      search (frame_rules, F.reading.frame, h, call (each_dirent-Within f h ds)) depth 8

  clear_dir-Within : (fuel : ℕ) (d : DirEntry) → Within R (clear_dir ext fuel d)
  unfolding clear_dir
  clear_dir-Within zero d = search (frame_rules, F.reading.frame)
  clear_dir-Within (suc fuel) d =
      let child : (c : DirEntry) → Within R (clear_dir ext fuel c) = λ c. clear_dir-Within fuel c in
      search
        (
          frame_rules,
          F.reading.frame,
          read_inode-Within F.reading ext,
          get_all_dirent-Within F.reading ext,
          sort_dirents-Within,
          dealloc_all-Within,
          call (each_dirent-Within (clear_dir ext fuel) child),
        )
        depth 14

  pub remove_directory-Within :
      (fuel : ℕ) (name : Bytes) (parent : Inode) (answer : Bytes) (gid : ℕ)
      → Within R (remove_directory ext fuel name parent answer gid)
  unfolding remove_directory
  remove_directory-Within fuel name parent answer gid =
      search
        (
          frame_rules,
          F.reading.frame,
          get_block_id_and_try_update-Within F.reading ext,
          read_inode-Within F.reading ext,
          get_all_dirent-Within F.reading ext,
          remove_object-Within ext F (dirent_object ext),
          clear_dir-Within,
          dealloc-Within ext F,
        )
        depth 16

  pub create_file-Within :
      (name : Bytes) (mode : ℕ) (parent : Inode) (is_copy : Bool) (content sent : Bytes)
      (ids : ℕ × ℕ)
      → Within R (create_file ext name mode parent is_copy content sent ids)
  unfolding create_file
  create_file-Within name mode parent is_copy content sent ids =
      search
        (
          frame_rules,
          F.reading.frame,
          get_block_id_and_try_update-Within F.reading ext,
          alloc_inode-Within ext F,
          linkat-Within ext F,
          get_all_blocks-Within F.reading ext,
          F.fills,
          insert_object-Within ext F (dirent_object ext),
        )
        depth 16

  pub remove_file-Within :
      (name : Bytes) (parent : Inode) (gid : ℕ) → Within R (remove_file ext name parent gid)
  unfolding remove_file
  remove_file-Within name parent gid =
      search
        (
          frame_rules,
          F.reading.frame,
          get_block_id_and_try_update-Within F.reading ext,
          read_inode-Within F.reading ext,
          dealloc-Within ext F,
          remove_object-Within ext F (dirent_object ext),
        )
        depth 14
