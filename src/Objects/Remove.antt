-- ===== src/Objects/Remove.antt =====
-- simdisk/src/block.rs: `remove_object`, `remove_block_addr_in_first_block` and
-- `check_data_and_fix`. A first-level address is read as a `usize` in `remove_object`.
use simple_fs_rust.Base.{
  ℕ, zero, suc, ◌+◌, ◌*◌, ◌/◌, ◌==◌, Bool, true, false, List, [], ◌∷◌, if◌then◌else◌, Bytes,
  bytes_eq, get_or, set, length,
}
use simple_fs_rust.Constants.{block_size, block_addr_size, direct_block_num, data_start_block}
use simple_fs_rust.State.{
  BlockLevel, Inode, External, Error, M, pure, fail, crash, gets, or_fail, attempt, is_ok, ◌>>=◌,
  ◌>>◌,
}
use simple_fs_rust.Cache.{get_blocks_buffers, get_block_buffer, write_block, deserialize}
use simple_fs_rust.Bitmap.{dealloc_data_bit}
use simple_fs_rust.Objects.{
  Object, get_first_id, set_first_id, get_second_id, set_second_id, chunk_args, addr_args,
  block_is_empty,
}

-- `Vec::is_empty`
abbrev pub vec_is_empty : Bytes → Bool
vec_is_empty bs = length bs == 0

module _ {B : Type 0} (ext : External B) where
  open ext use {bits, block_id_codec, usize_codec}

  -- The loop over the addresses of a first-level block: the address is cleared where it stands.
  unfoldable pub clear_addr_loop : List Bytes → ℕ → ℕ → ℕ → M B Bool
  clear_addr_loop [] i first_id block_id = pure false
  clear_addr_loop (buf ∷ bufs) i first_id block_id =
      let next = clear_addr_loop bufs (i + 1) first_id block_id in
      do
        bs ← or_fail (block_id_codec.to_bytes block_id) Error.cannot_serialize
        if bytes_eq buf bs
            then (do write_block block_id_codec 0 first_id (i * block_addr_size); pure true)
            else next

  unfoldable pub remove_block_addr_in_first_block : ℕ → ℕ → M B (Unit {0})
  remove_block_addr_in_first_block first_id block_id = do
    addrs ← get_blocks_buffers (addr_args first_id)
    exist ← clear_addr_loop addrs 0 first_id block_id
    if exist
        then (do
          first_block ← get_block_buffer first_id 0 block_size
          if block_is_empty first_block then dealloc_data_bit ext first_id else pure tt)
        else fail Error.object_not_found

  -- The loop over the first-level addresses of a second-level block, from entry `i`: the last
  -- address read, and the offset of the entry under which the block was found (0 if none).
  unfoldable pub clear_second_loop : List Bytes → ℕ → ℕ → ℕ → M B (ℕ × ℕ)
  clear_second_loop [] i last block_id = pure (last, 0)
  clear_second_loop (buf ∷ bufs) i last block_id =
      let next = λ (first_id : ℕ). clear_second_loop bufs (i + 1) first_id block_id in
      do
        first_id ← deserialize usize_codec buf
        r ← attempt (remove_block_addr_in_first_block first_id block_id)
        if is_ok r then pure (first_id, i * block_addr_size) else next first_id

  -- The loop of the direct level: it panics where no address is the block's.
  unfoldable pub clear_direct_loop : ℕ → ℕ → ℕ → Inode → M B Inode
  clear_direct_loop zero i block_id inode = crash
  clear_direct_loop (suc n) i block_id inode =
      let next = clear_direct_loop n (i + 1) block_id inode in
      if block_id == get_or inode.addr i 0
      then pure (record inode { addr = set inode.addr i 0 })
      else next

  -- The `match level` of `remove_object`, after the block itself was freed.
  unfoldable pub unlink_block : BlockLevel → ℕ → Inode → M B Inode
  unlink_block BlockLevel.direct block_id inode =
      clear_direct_loop direct_block_num 0 block_id inode
  unlink_block BlockLevel.first_indirect block_id inode = do
    remove_block_addr_in_first_block (get_first_id inode) block_id
    pure (set_first_id 0 inode)
  unlink_block BlockLevel.second_indirect block_id inode = do
    let second_id = get_second_id inode
    addrs ← get_blocks_buffers (addr_args second_id)
    (first_id, start) ← clear_second_loop addrs 0 0 block_id
    first_block ← get_block_buffer first_id 0 block_size
    if block_is_empty first_block
        then (do
          write_block block_id_codec 0 second_id start
          second_block ← get_block_buffer second_id 0 block_size
          if block_is_empty second_block
              then (do dealloc_data_bit ext second_id; pure (set_second_id 0 inode))
              else pure inode)
        else pure inode

  module _ {T : Type 0} (object_type : Object T) where
    open object_type use {codec, size, default, eq}

    -- The loop that overwrites the object by the default value: whether it was there.
    unfoldable pub overwrite_loop : List Bytes → ℕ → T → ℕ → M B Bool
    overwrite_loop [] i object block_id = pure false
    overwrite_loop (buf ∷ bufs) i object block_id =
        let next = overwrite_loop bufs (i + 1) object block_id in
        do
          found ← deserialize codec buf
          if eq object found
              then (do write_block codec default block_id (i * size); pure true)
              else next

    unfoldable pub remove_object : T → ℕ → BlockLevel → Inode → M B Inode
    remove_object object block_id level inode = do
      bufs ← get_blocks_buffers (chunk_args block_id size 0 (block_size / size))
      exist ← overwrite_loop bufs 0 object block_id
      if exist
          then (do
            block ← get_block_buffer block_id 0 block_size
            if block_is_empty block
                then (do dealloc_data_bit ext block_id; unlink_block level block_id inode)
                else pure inode)
          else fail Error.object_not_found

  -- The loops of `check_data_and_fix`: bits `j` on of byte `i` (`n` are left), and the bytes.
  unfoldable pub check_data_bits : ℕ → ℕ → ℕ → B → M B (Unit {0})
  check_data_bits zero j i byte = pure tt
  check_data_bits (suc n) j i byte =
      let next = check_data_bits n (j + 1) i byte in
      do
        if bits.get byte j
            then (do
              let block_id = i * 8 + j + data_start_block
              block ← get_block_buffer block_id 0 block_size
              if vec_is_empty block then dealloc_data_bit ext block_id else pure tt)
            else pure tt
        next

  unfoldable pub check_data_bytes : List B → ℕ → M B (Unit {0})
  check_data_bytes [] i = pure tt
  check_data_bytes (byte ∷ bytes) i = do check_data_bits 8 0 i byte; check_data_bytes bytes (i + 1)

  unfoldable pub check_data_and_fix : M B (Unit {0})
  check_data_and_fix = do bytes ← gets (λ w. w.bitmaps.datas); check_data_bytes bytes 0
