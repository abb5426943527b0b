-- ===== src/Dirent/Remove.antt =====
-- simdisk/src/dirent.rs: `clear_dir` and `remove_directory`. The bytes that the client answers are
-- an argument, empty where the connection is closed.
use simple_fs_rust.Base.{
  ℕ, zero, suc, ◌==◌, leb, Bool, true, false, not, ◌&&◌, ◌||◌, List, [], ◌∷◌, if◌then◌else◌, Bytes,
  codes, bytes_eq, take,
}
use simple_fs_rust.State.{
  by_type, Inode, DirEntry, External, Error, M, pure, fail, lift, unwrap, diverge, ◌>>=◌, ◌>>◌,
}
use simple_fs_rust.Dirent.{LeveledDirent, get_all_dirent, get_block_id_and_try_update}
use simple_fs_rust.Inode.{read_inode, unlinkat}
use simple_fs_rust.Inode.Dealloc.{dealloc}
use simple_fs_rust.Name.{
  dirent_eq, new_temp, is_special_dir, is_special, is_parent, split_name, dirent_object, is_nil,
}
use simple_fs_rust.Objects.Remove.{remove_object}
use simple_fs_rust.User.{able_to_modify}

-- What the first loop of `clear_dir` collects.
pub record Sorted : Type 0 where
  pub file_inodes : List Inode
  pub dir_inodes : List Inode
  pub trash_dirs : List DirEntry

abbrev pub contains_dirent : DirEntry → List DirEntry → Bool
contains_dirent d [] = false
contains_dirent d (e ∷ es) = dirent_eq e d || contains_dirent d es

-- `dirents.retain(…)`
abbrev pub retain_dirs : List DirEntry → List LeveledDirent → List LeveledDirent
retain_dirs trash [] = []
retain_dirs trash (e ∷ es) =
    if not (contains_dirent e.2 trash) then e ∷ retain_dirs trash es else retain_dirs trash es

-- `str::trim` and `replace('\0', "")`, for the white space of ASCII.
abbrev pub is_space : ℕ → Bool
is_space c = (c == 32) || (leb 9 c && leb c 13)

abbrev pub trim_start : Bytes → Bytes
trim_start [] = []
trim_start (b ∷ bs) = if is_space b then trim_start bs else b ∷ bs

abbrev pub trim_end : Bytes → Bytes
trim_end [] = []
trim_end (b ∷ bs) = if is_nil (trim_end bs) && is_space b then [] else b ∷ trim_end bs

abbrev pub trim : Bytes → Bytes
trim bs = trim_end (trim_start bs)

abbrev pub remove_nul : Bytes → Bytes
remove_nul [] = []
remove_nul (b ∷ bs) = if b == 0 then remove_nul bs else b ∷ remove_nul bs

-- The test of the answer, of which at most 8 bytes are read.
pub is_yes : Bytes → Bool
is_yes answer =
    bytes_eq (trim (remove_nul (take 8 answer))) (codes "y")
    || bytes_eq (trim (remove_nul (take 8 answer))) (codes "Y")

abbrev pub all_special : List LeveledDirent → Bool
all_special [] = true
all_special (e ∷ es) = if not (is_special e.2) then false else all_special es

module _ {B : Type 0} (ext : External B) where
  -- The first loop of `clear_dir`.
  unfoldable pub sort_dirents : List LeveledDirent → M B Sorted
  sort_dirents [] = pure (record { file_inodes = []; dir_inodes = []; trash_dirs = [] })
  sort_dirents (e ∷ es) =
      let rest = sort_dirents es in
      do
        inside ← unwrap (read_inode ext ((e.2).inode_id))
        by_type (inside.inode_type)
            (do
              s ← rest
              pure (record s {
                file_inodes = inside ∷ s.file_inodes;
                trash_dirs = e.2 ∷ s.trash_dirs;
              }))
            (do
              inside' ← (if is_parent e.2 then unlinkat ext inside else pure inside)
              s ← rest
              pure (
                  if not (is_special e.2)
                  then record s { dir_inodes = inside' ∷ s.dir_inodes }
                  else record s { trash_dirs = e.2 ∷ s.trash_dirs }))

  unfoldable pub dealloc_all : List Inode → M B (Unit {0})
  dealloc_all [] = pure tt
  dealloc_all (n ∷ ns) = do n' ← dealloc ext n; dealloc_all ns

  abbrev pub each_dirent : (DirEntry → M B (Unit {0})) → List LeveledDirent → M B (Unit {0})
  each_dirent f [] = pure tt
  each_dirent f (e ∷ es) = do f (e.2); each_dirent f es

  -- `clear_dir`, with fuel for the depth of the tree.
  unfoldable pub clear_dir : ℕ → DirEntry → M B (Unit {0})
  clear_dir zero d = lift diverge
  clear_dir (suc fuel) d =
      let clear_child = clear_dir fuel in
      do
        inode ← unwrap (read_inode ext (d.inode_id))
        ds ← unwrap (get_all_dirent ext inode)
        s ← sort_dirents ds
        dealloc_all (s.file_inodes)
        each_dirent clear_child (retain_dirs (s.trash_dirs) ds)
        dealloc_all (s.dir_inodes)

  -- `remove_directory`: the parent as it stands after the call.
  unfoldable pub remove_directory : ℕ → Bytes → Inode → Bytes → ℕ → M B Inode
  remove_directory fuel name parent answer gid =
      if is_special_dir name then fail Error.special_directory else (do
        let (filename, extension) = split_name name
        d ← lift (new_temp filename extension true)
        e ← get_block_id_and_try_update ext d parent
        let found = e.2
        if not (found.is_dir) then fail Error.cannot_rd_a_file else (do
          dir_inode ← read_inode ext (found.inode_id)
          if not (able_to_modify gid (dir_inode.gid))
              then fail Error.insufficient_permissions
              else (do
                ds ← get_all_dirent ext dir_inode
                if not (all_special ds) && is_nil answer
                    then fail Error.cannot_read_from_client
                    else (if all_special ds || is_yes answer
                        then (do
                          parent' ← remove_object ext (dirent_object ext) found e.1 e.0 parent
                          clear_dir fuel found
                          dir' ← dealloc ext dir_inode
                          pure parent')
                        else pure parent))))
