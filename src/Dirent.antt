-- ===== src/Dirent.antt =====
-- simdisk/src/dirent.rs, the entries of a directory: listing and finding them, and the walk along
-- a path. The children have the making and the removal of directories.
pub mod Make
pub mod Remove
use simple_fs_rust.Base.{
  ℕ, ◌/◌, ◌==◌, Bool, true, false, Option, none, some, List, [], ◌∷◌, ◌++◌, if◌then◌else◌, Bytes,
  get_or,
}
use simple_fs_rust.State.{
  by_type, on_ok, BlockLevel, Inode, InodeType, DirEntry, External, Error, Outcome, ok, err, panic,
  diverge, M, pure, fail, lift, unwrap, attempt, or_fail, is_ok, ◌>>=◌, ◌>>◌,
}
use simple_fs_rust.Cache.{get_blocks_buffers, deserialize}
use simple_fs_rust.Constants.{block_size, dirent_size}
use simple_fs_rust.Inode.{read_inode}
use simple_fs_rust.Name.{dirent_eq, new_temp, is_special_dir, split_name}
use simple_fs_rust.Objects.{LeveledBlock, chunk_args, get_all_valid_blocks}

abbrev pub LeveledDirent : Type 0
LeveledDirent = BlockLevel × ℕ × DirEntry

abbrev pub push_front : ℕ → List Bytes → List Bytes
push_front b [] = (b ∷ []) ∷ []
push_front b (p ∷ ps) = (b ∷ p) ∷ ps

-- `path.split(c)`: at least one part.
abbrev pub split_on : ℕ → Bytes → List Bytes
split_on c [] = [] ∷ []
split_on c (b ∷ bs) = if b == c then [] ∷ split_on c bs else push_front b (split_on c bs)

-- `paths[1..]`
abbrev pub behind_first : List Bytes → List Bytes
behind_first [] = []
behind_first (p ∷ ps) = ps

abbrev pub find_dirent : DirEntry → List LeveledDirent → Option LeveledDirent
find_dirent d [] = none
find_dirent d (e ∷ es) = if dirent_eq d e.2 then some e else find_dirent d es

module _ {B : Type 0} (ext : External B) where
  open ext use {dirent_codec}

  -- The inner loop of `get_all_dirent`: a chunk whose first byte is 0 is no entry.
  unfoldable pub dirents_of_buffers : BlockLevel → ℕ → List Bytes → M B (List LeveledDirent)
  dirents_of_buffers level id [] = pure []
  dirents_of_buffers level id (buf ∷ bufs) =
      let rest = dirents_of_buffers level id bufs in
      if get_or buf 0 0 == 0
      then rest
      else (do d ← deserialize dirent_codec buf; more ← rest; pure ((level, id, d) ∷ more))

  unfoldable pub dirents_of_blocks : List LeveledBlock → M B (List LeveledDirent)
  dirents_of_blocks [] = pure []
  dirents_of_blocks (b ∷ bs) =
      let rest = dirents_of_blocks bs in
      if b.1 == 0 then pure [] else (do
        bufs ← get_blocks_buffers (chunk_args b.1 dirent_size 0 (block_size / dirent_size))
        ds ← dirents_of_buffers b.0 b.1 bufs
        more ← rest
        pure (ds ++ more))

  unfoldable pub get_all_dirent : Inode → M B (List LeveledDirent)
  get_all_dirent inode = do blocks ← get_all_valid_blocks ext inode; dirents_of_blocks blocks

  -- `get_block_id_and_try_update`: the entry with the inode and type found, its level and block.
  unfoldable pub get_block_id_and_try_update : DirEntry → Inode → M B LeveledDirent
  get_block_id_and_try_update d inode = do
    ds ← unwrap (get_all_dirent inode)
    e ← or_fail (find_dirent d ds) Error.dirent_not_found
    pure (e.0, e.1, record d { inode_id = (e.2).inode_id; is_dir = (e.2).is_dir })

  unfoldable pub try_cd : Bytes → Inode → M B Inode
  try_cd name current = do
    let (filename, ext_name) = if is_special_dir name then (name, []) else split_name name
    d ← lift (new_temp filename ext_name true)
    r ← attempt (get_block_id_and_try_update d current)
    on_ok r (fail Error.no_such_directory) λ e. do
      target ← read_inode ext ((e.2).inode_id)
      by_type (target.inode_type) (fail Error.not_a_directory) (pure target)

  -- The loop of `cd` over the parts of the path.
  unfoldable pub cd_loop : List Bytes → Inode → M B Inode
  cd_loop [] current = pure current
  cd_loop (p ∷ ps) current = do target ← try_cd p current; cd_loop ps target

  -- `cd`: the part before the first `/` is skipped.
  unfoldable pub cd : Bytes → Inode → M B Inode
  cd path current = cd_loop (behind_first (split_on b'/' path)) current
