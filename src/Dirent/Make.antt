-- ===== src/Dirent/Make.antt =====
-- simdisk/src/dirent.rs: `make_directory`.
use simple_fs_rust.Base.{ℕ, true, if◌then◌else◌, Bytes}
use simple_fs_rust.State.{Inode, External, Error, M, fail, lift, attempt, is_ok, ◌>>=◌}
use simple_fs_rust.Name.{new_temp, is_special_dir, split_name, dirent_object}
use simple_fs_rust.Inode.{linkat, alloc_dir_inode}
use simple_fs_rust.Objects.Insert.{insert_object}
use simple_fs_rust.Dirent.{get_block_id_and_try_update}

module _ {B : Type 0} (ext : External B) where
  -- The parent as it stands after the call.
  unfoldable pub make_directory : Bytes → Inode → ℕ → ℕ → M B Inode
  make_directory name parent gid uid =
      if is_special_dir name then fail Error.special_directory else (do
        let (filename, extension) = split_name name
        d ← lift (new_temp filename extension true)
        found ← attempt (get_block_id_and_try_update ext d parent)
        if is_ok found then fail Error.already_exist else (do
          (node, parent') ← alloc_dir_inode ext parent gid uid
          node' ← linkat ext node
          insert_object ext (dirent_object ext) (record d { inode_id = node'.inode_id }) parent'))
