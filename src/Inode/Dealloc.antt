-- ===== src/Inode/Dealloc.antt =====
-- simdisk/src/inode.rs: `Inode::dealloc` with the helpers that free indirect blocks, and
-- `check_inodes_and_fix`.
use simple_fs_rust.Base.{ℕ, zero, suc, ◌+◌, ◌*◌, ◌/◌, ◌==◌, List, [], ◌∷◌, if◌then◌else◌, get_or}
use simple_fs_rust.Constants.{block_size, block_addr_size, direct_block_num}
use simple_fs_rust.State.{Inode, External, M, pure, gets, unwrap, assert, ◌>>=◌, ◌>>◌}
use simple_fs_rust.Cache.{get_blocks_buffers, get_block_buffer, deserialize}
use simple_fs_rust.Bitmap.{dealloc_inode_bit, dealloc_data_bit, dealloc_data_bits}
use simple_fs_rust.Objects.{get_first_id, get_second_id, flat_addr_args, direct_ids_loop}
use simple_fs_rust.Inode.{read_inode, unlinkat}

module _ {B : Type 0} (ext : External B) where
  open ext use {bits, block_id_codec}

  unfoldable pub dealloc_first_arr_blocks : List ℕ → M B (Unit {0})
  dealloc_first_arr_blocks first_ids = do
    bufs ← unwrap (get_blocks_buffers (flat_addr_args ext first_ids))
    ids ← unwrap (direct_ids_loop ext bufs)
    dealloc_data_bits ext ids

  unfoldable pub dealloc_first_blocks : ℕ → M B (Unit {0})
  dealloc_first_blocks id = dealloc_first_arr_blocks (id ∷ [])

  -- The loop over the direct addresses, `n` left from `i` on: it stops at the first 0.
  unfoldable pub dealloc_directs : ℕ → ℕ → Inode → M B (Unit {0})
  dealloc_directs zero i inode = pure tt
  dealloc_directs (suc n) i inode =
      let next = dealloc_directs n (i + 1) inode in
      if get_or inode.addr i 0 == 0
      then pure tt
      else (do dealloc_data_bit ext (get_or inode.addr i 0); next)

  -- The first-level addresses of the second-level block, read one by one up to the first 0.
  unfoldable pub second_entries : ℕ → ℕ → ℕ → M B (List ℕ)
  second_entries zero i second_id = pure []
  second_entries (suc n) i second_id =
      let next = second_entries n (i + 1) second_id in
      do
        buf ← unwrap (
            get_block_buffer second_id (i * block_addr_size)
              (i * block_addr_size + block_addr_size))
        id ← unwrap (deserialize block_id_codec buf)
        if id == 0 then pure [] else (do more ← next; pure (id ∷ more))

  -- The indirect part of `dealloc`.
  unfoldable pub dealloc_indirect : Inode → M B (Unit {0})
  dealloc_indirect inode = if get_first_id inode == 0 then pure tt else (do
    dealloc_first_blocks (get_first_id inode)
    dealloc_data_bit ext (get_first_id inode)
    if get_second_id inode == 0 then pure tt else (do
      first_ids ← second_entries (block_size / block_addr_size) 0 (get_second_id inode)
      dealloc_first_arr_blocks first_ids
      dealloc_data_bits ext first_ids
      dealloc_data_bit ext (get_second_id inode)))

  -- `Inode::dealloc`
  unfoldable pub dealloc : Inode → M B Inode
  dealloc inode = do
    freed ← dealloc_inode_bit ext inode.inode_id
    assert freed
    inode' ← unlinkat ext inode
    dealloc_directs direct_block_num 0 inode'
    dealloc_indirect inode'
    pure inode'

  -- The loops of `check_inodes_and_fix`: bits `j` on of byte `i` (`n` are left), and the bytes.
  unfoldable pub check_inode_bits : ℕ → ℕ → ℕ → B → M B (Unit {0})
  check_inode_bits zero j i byte = pure tt
  check_inode_bits (suc n) j i byte =
      let next = check_inode_bits n (j + 1) i byte in
      do
        if bits.get byte j
            then (do
              let id = i * 8 + j
              inode ← read_inode ext id
              if inode.inode_id == id
                  then pure tt
                  else (do freed ← dealloc_inode_bit ext id; pure tt))
            else pure tt
        next

  unfoldable pub check_inode_bytes : List B → ℕ → M B (Unit {0})
  check_inode_bytes [] i = pure tt
  check_inode_bytes (byte ∷ bytes) i = do
    check_inode_bits 8 0 i byte
    check_inode_bytes bytes (i + 1)

  unfoldable pub check_inodes_and_fix : M B (Unit {0})
  check_inodes_and_fix = do bytes ← gets (λ w. w.bitmaps.inodes); check_inode_bytes bytes 0
