-- ===== src/Inode.antt =====
-- simdisk/src/inode.rs: where an inode stands on the disk, its blocks, and its making. The children
-- have the release of an inode and the check of the inode bitmap.
pub mod Dealloc
pub mod Layout
pub mod RoundTrip
use simple_fs_rust.Base.{
  ℕ, zero, suc, ◌+◌, ◌-◌, ◌*◌, ◌/◌, ◌%◌, ◌^◌, ◌==◌, ltb, min, Bool, true, false, List, [], ◌∷◌,
  if◌then◌else◌, Bytes, codes, get_or, set, replicate,
}
use simple_fs_rust.State.{
  by_type, Inode, InodeType, DirEntry, BitmapType, External, Error, Outcome, ok, err, panic,
  diverge, M, pure, fail, gets, lift, unwrap, assert, ◌>>=◌, ◌>>◌,
}
use simple_fs_rust.Bitmap.{alloc_bit, count_valid_data_blocks}
use simple_fs_rust.Cache.{write_block, get_block_buffer, deserialize}
use simple_fs_rust.Constants.{
  block_size, inode_size, inode_start_block, data_start_block, direct_block_num, first_indirect_num,
  first_max, second_max, indirect_addr_num, addr_total_size,
}
use simple_fs_rust.Name.{new_dirent}
use simple_fs_rust.Objects.{set_first_id, set_second_id}

-- `FileMode::RDONLY` and `FileMode::RDWR`
abbrev pub rdonly : ℕ
rdonly = 1

abbrev pub rdwr : ℕ
rdwr = 4

-- `cal_offset`: the block of an inode, and its first byte there.
unfoldable pub cal_offset : ℕ → ℕ × ℕ
cal_offset inode_id = (inode_id / block_size + inode_start_block, inode_id % 16 * inode_size)

-- The numbers that `alloc_data_blocks` computes: of blocks in all, of direct blocks, and of blocks
-- below the first-level and the second-level block.
unfoldable pub block_nums : ℕ → ℕ
block_nums size = if size == 0 then 1 else (size - 1) / block_size + 1

unfoldable pub direct_nums : ℕ → ℕ
direct_nums n = min direct_block_num n

unfoldable pub first_nums : ℕ → ℕ
first_nums n = if ltb (direct_nums n) n then min (n - direct_nums n) first_max else 0

unfoldable pub second_nums : ℕ → ℕ
second_nums n = if ltb (direct_nums n + first_nums n) n then n - direct_nums n - first_nums n else 0

-- The literal `Self { … }` of `new_root` and `alloc`.
abbrev pub fresh_inode : InodeType → ℕ → ℕ → ℕ → ℕ → ℕ → ℕ → Inode
fresh_inode ty inode_id mode size gid uid now = record {
  inode_id = inode_id;
  inode_type = ty;
  mode = mode;
  nlink = 0;
  gid = gid;
  uid = uid;
  size = size;
  time_info = now;
  addr = replicate addr_total_size 0;
}

module _ {B : Type 0} (ext : External B) where
  open ext use {bits, inode_codec, block_id_codec, dirent_codec, dirents_codec}

  unfoldable pub read_inode : ℕ → M B Inode
  read_inode inode_id = do
    let (block_id, start) = cal_offset inode_id
    buf ← get_block_buffer block_id start (start + inode_size)
    deserialize inode_codec buf

  unfoldable pub cache_inode : Inode → M B (Unit {0})
  cache_inode inode = do
    let (block_id, start) = cal_offset inode.inode_id
    unwrap (write_block inode_codec inode block_id start)

  -- `nlink` is a `u8`; the program is built without overflow checks.
  unfoldable pub linkat : Inode → M B Inode
  linkat inode = do
    let inode' = record inode { nlink = (inode.nlink + 1) % 2 ^ 8 }
    cache_inode inode'
    pure inode'

  unfoldable pub unlinkat : Inode → M B Inode
  unlinkat inode = do
    let inode' = record inode { nlink = (inode.nlink + 255) % 2 ^ 8 }
    cache_inode inode'
    pure inode'

  -- `alloc_bit(ty).await? + start`
  unfoldable pub alloc_data_block : M B ℕ
  alloc_data_block = do
    bit ← alloc_bit ext BitmapType.data_block
    pure ((bit + data_start_block) % 2 ^ 32)

  -- `n` direct blocks from address `i` on.
  unfoldable pub alloc_directs : ℕ → ℕ → Inode → M B Inode
  alloc_directs zero i inode = pure inode
  alloc_directs (suc n) i inode = do
    id ← alloc_data_block
    alloc_directs n (i + 1) (record inode { addr = set inode.addr i id })

  -- `n` blocks, their addresses written into block `first_id` from entry `i` on.
  unfoldable pub alloc_entries : ℕ → ℕ → ℕ → M B (Unit {0})
  alloc_entries zero i first_id = pure tt
  alloc_entries (suc n) i first_id = do
    id ← alloc_data_block
    write_block block_id_codec id first_id (i * 4)
    alloc_entries n (i + 1) first_id

  -- The loop over the first-level blocks of the second-level block, `n` left, for `rest` blocks.
  unfoldable pub alloc_firsts : ℕ → ℕ → ℕ → ℕ → M B (Unit {0})
  alloc_firsts zero i rest second_id = pure tt
  alloc_firsts (suc n) i rest second_id =
      let next = alloc_firsts n (i + 1) (rest - first_max) second_id in
      do
        first_id ← alloc_data_block
        write_block block_id_codec first_id second_id (i * 4)
        alloc_entries (min rest first_max) 0 first_id
        if ltb rest first_max then pure tt else next

  -- The parts of `alloc_data_blocks` behind its checks.
  unfoldable pub alloc_first_level : ℕ → Inode → M B Inode
  alloc_first_level n inode =
      if ltb 0 n
      then (do
        first_id ← alloc_data_block
        alloc_entries n 0 first_id
        pure (set_first_id first_id inode))
      else pure inode

  unfoldable pub alloc_second_level : ℕ → Inode → M B Inode
  alloc_second_level n inode =
      if ltb 0 n
      then (do
        second_id ← alloc_data_block
        alloc_firsts ((n - 1) / indirect_addr_num + 1) 0 n second_id
        pure (set_second_id second_id inode))
      else pure inode

  unfoldable pub alloc_data_blocks : Inode → M B Inode
  alloc_data_blocks inode = do
    let n = block_nums inode.size
    available ← gets (λ w. count_valid_data_blocks bits w.bitmaps)
    if ltb available n
        then fail Error.no_enough_block
        else if ltb (direct_block_num + first_max + second_max) n
        then fail Error.file_size_too_large
        else (do
          directs ← alloc_directs (direct_nums n) 0 inode
          firsts ← alloc_first_level (first_nums n) directs
          alloc_second_level (second_nums n) firsts)

  -- `DirEntry::create_dot` and `create_dot_dot` of dirent.rs: the entry, and the inode linked.
  unfoldable pub create_dot : Inode → M B (DirEntry × Inode)
  create_dot inode = do
    d ← unwrap (lift (new_dirent (codes ".") [] true inode.inode_id))
    inode' ← linkat inode
    pure (d, inode')

  unfoldable pub create_dot_dot : Inode → M B (DirEntry × Inode)
  create_dot_dot inode = do
    d ← unwrap (lift (new_dirent (codes "..") [] true inode.inode_id))
    inode' ← linkat inode
    pure (d, inode')

  -- `Inode::new_root`
  unfoldable pub new_root : M B Inode
  new_root = do
    bit ← unwrap (alloc_bit ext BitmapType.inode)
    assert (bit % 2 ^ 16 == 0)
    now ← gets (λ w. w.clock)
    root ←
        unwrap (alloc_data_blocks (fresh_inode InodeType.directory (bit % 2 ^ 16) rdwr 0 0 0 now))
    assert (get_or root.addr 0 0 == data_start_block)
    (dot, root') ← create_dot root
    unwrap (write_block dirent_codec dot (get_or root'.addr 0 0) 0)
    cache_inode root'
    pure root'

  -- `Inode::alloc`: the new inode and the parent, whose links a new directory changes.
  unfoldable pub alloc_inode : InodeType → Inode → ℕ → ℕ → ℕ → ℕ → M B (Inode × Inode)
  alloc_inode ty parent mode size gid uid = do
    bit ← alloc_bit ext BitmapType.inode
    now ← gets (λ w. w.clock)
    inode ← alloc_data_blocks (fresh_inode ty (bit % 2 ^ 16) mode size gid uid now)
    by_type ty (do cache_inode inode; pure (inode, parent))
        (do
          (dot, inode') ← create_dot inode
          (dot_dot, parent') ← create_dot_dot parent
          unwrap (write_block dirents_codec (dot, dot_dot) (get_or inode'.addr 0 0) 0)
          cache_inode inode'
          pure (inode', parent'))

  unfoldable pub alloc_dir_inode : Inode → ℕ → ℕ → M B (Inode × Inode)
  alloc_dir_inode parent gid uid = alloc_inode InodeType.directory parent rdwr 0 gid uid
