-- ===== src/File.antt =====
-- simdisk/src/file.rs, and `receive_content` of lib/lib.rs. The bytes that the client sends are an
-- argument.
pub mod Chunks
use simple_fs_rust.Base.{
  ℕ, zero, suc, ◌%◌, ◌^◌, ◌==◌, ltb, leb, Bool, true, false, not, ◌&&◌, Option, none, some, List,
  [], ◌∷◌, ◌++◌, map, if◌then◌else◌, Bytes, length, take, drop,
}
use simple_fs_rust.State.{
  on_ok, Inode, InodeType, External, Error, Outcome, ok, err, panic, M, pure, fail, lift, attempt,
  assert, is_ok, ◌>>=◌, ◌>>◌,
}
use simple_fs_rust.Cache.{write_file_content_to_blocks}
use simple_fs_rust.Constants.{block_size, max_file_size}
use simple_fs_rust.Dirent.{get_block_id_and_try_update}
use simple_fs_rust.Inode.{read_inode, linkat, alloc_inode}
use simple_fs_rust.Inode.Dealloc.{dealloc}
use simple_fs_rust.Name.{new_temp, split_name, dirent_object, is_nil}
use simple_fs_rust.Objects.{LeveledBlock, get_all_blocks, get_all_valid_blocks}
use simple_fs_rust.Objects.Insert.{insert_object}
use simple_fs_rust.Objects.Remove.{remove_object}
use simple_fs_rust.User.{able_to_modify}

-- How many bytes of a character follow its first byte; `none` for a byte that begins none.
abbrev pub following : ℕ → Option ℕ
following b =
    if ltb b 0x80
    then some 0
    else if ltb b 0xc0
    then none
    else if ltb b 0xe0
    then some 1
    else if ltb b 0xf0
    then some 2
    else if ltb b 0xf8
    then some 3
    else none

-- `from_utf8(…).is_ok()` for a piece of valid UTF-8: only whole characters, `n` bytes of the
-- first still to come.
unfoldable pub is_utf8_from : ℕ → Bytes → Bool
is_utf8_from zero [] = true
is_utf8_from (suc n) [] = false
is_utf8_from zero (b ∷ bs) = elim (following b) [ none ↦ false | some k ↦ is_utf8_from k bs ]
is_utf8_from (suc n) (b ∷ bs) = (leb 0x80 b && ltb b 0xc0) && is_utf8_from n bs

unfoldable pub is_utf8 : Bytes → Bool
unfolding is_utf8_from
is_utf8 = is_utf8_from 0

-- `chunks(BLOCK_SIZE)`, with fuel for the number of chunks.
unfoldable pub chunks : ℕ → Bytes → List Bytes
chunks zero bs = []
chunks (suc fuel) [] = []
chunks (suc fuel) (b ∷ bs) = take block_size (b ∷ bs) ∷ chunks fuel (drop block_size (b ∷ bs))

abbrev pub all_utf8 : List Bytes → Bool
all_utf8 [] = true
all_utf8 (c ∷ cs) = is_utf8 c && all_utf8 cs

-- `split_inputs`: it panics where a character stands across two blocks. There are no more chunks
-- than bytes.
unfoldable pub split_inputs : Bytes → Outcome (List Bytes)
unfolding chunks is_utf8
split_inputs inputs =
    if all_utf8 (chunks (length inputs) inputs) then ok (chunks (length inputs) inputs) else panic

-- `utils::receive_content`
pub receive_content : Bytes → Outcome Bytes
receive_content sent = if length sent == 0 then err Error.read_zero_byte else ok sent

-- `inputs`, from the content to copy or from the client.
pub file_inputs : Bool → Bytes → Bytes → Outcome Bytes
unfolding receive_content
file_inputs true content sent = ok content
file_inputs false content sent = elim (receive_content sent) [
  | ok inputs ↦ if ltb max_file_size (length inputs) then err Error.file_size_limit else ok inputs
  | other ↦ other
]

abbrev pub trim_end_nul : Bytes → Bytes
trim_end_nul [] = []
trim_end_nul (b ∷ bs) = if is_nil (trim_end_nul bs) && (b == 0) then [] else b ∷ trim_end_nul bs

abbrev pub flat_blocks : List LeveledBlock → Bytes
flat_blocks [] = []
flat_blocks (b ∷ bs) = b.2 ++ flat_blocks bs

module _ {B : Type 0} (ext : External B) where
  -- `create_file`: the parent as it stands after the call.
  unfoldable pub create_file : Bytes → ℕ → Inode → Bool → Bytes → Bytes → ℕ × ℕ → M B Inode
  unfolding split_inputs file_inputs
  create_file name mode parent is_copy content sent (gid, uid) = do
    let (filename, extension) = split_name name
    d ← lift (new_temp filename extension false)
    found ← attempt (get_block_id_and_try_update ext d parent)
    if is_ok found then fail Error.file_already_exists else (do
      inputs ← lift (file_inputs is_copy content sent)
      input_vecs ← lift (split_inputs inputs)
      (inode, parent') ← alloc_inode ext InodeType.file parent mode (length inputs % 2 ^ 32) gid uid
      inode' ← linkat ext inode
      blocks ← get_all_blocks ext inode'
      assert (leb (length input_vecs) (length blocks))
      write_file_content_to_blocks input_vecs (map (λ b. b.1) blocks)
      insert_object ext (dirent_object ext) (record d { inode_id = inode'.inode_id }) parent')

  -- `remove_file`: the parent as it stands after the call.
  unfoldable pub remove_file : Bytes → Inode → ℕ → M B Inode
  remove_file name parent gid = do
    let (filename, extension) = split_name name
    d ← lift (new_temp filename extension false)
    e ← get_block_id_and_try_update ext d parent
    let found = e.2
    if found.is_dir then fail Error.not_a_file else (do
      inode ← read_inode ext (found.inode_id)
      if not (able_to_modify gid (inode.gid)) then fail Error.insufficient_permissions else (do
        inode' ← dealloc ext inode
        remove_object ext (dirent_object ext) found e.1 e.0 parent))

  unfoldable pub get_file_content : Bytes → Inode → M B Bytes
  get_file_content name parent = do
    let (filename, extension) = split_name name
    d ← lift (new_temp filename extension false)
    found ← attempt (get_block_id_and_try_update ext d parent)
    on_ok found (fail Error.no_such_file) λ e.
        if (e.2).is_dir then fail Error.cannot_open_directory else (do
          inode ← read_inode ext ((e.2).inode_id)
          blocks ← get_all_valid_blocks ext inode
          pure (trim_end_nul (flat_blocks blocks)))
