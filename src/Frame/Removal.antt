-- ===== src/Frame/Removal.antt =====
-- `remove_object` and `check_data_and_fix` of simdisk/src/block.rs.
use simple_fs_rust.Base.{◌+◌, Bytes, List, ℕ, [], ◌∷◌, zero, suc}
use simple_fs_rust.State.{World, Inode, BlockLevel, External}
use simple_fs_rust.Constants.{direct_block_num}
use simple_fs_rust.Frame.{call, frame_rules, Within}
use simple_fs_rust.Frame.Changing.{dealloc_data_bit-Within, write_block-Within, IsWriteFrame}
use simple_fs_rust.Frame.Reading.{get_block_buffer-Within, get_blocks_buffers-Within}
use simple_fs_rust.Objects.{Object}
use simple_fs_rust.Objects.Remove.{
  overwrite_loop, remove_object, check_data_and_fix, check_data_bits, check_data_bytes,
  clear_addr_loop, clear_direct_loop, clear_second_loop, remove_block_addr_in_first_block,
  unlink_block,
}

module _ {B : Type 0} {R : World B → World B → Type 0} (ext : External B)
    (F : IsWriteFrame ext R) where
  clear_addr_loop-Within :
      (bufs : List Bytes) (i first_id block_id : ℕ)
      → Within R (clear_addr_loop ext bufs i first_id block_id)
  unfolding clear_addr_loop
  clear_addr_loop-Within [] i first_id block_id = search (frame_rules, F.reading.frame)
  clear_addr_loop-Within (buf ∷ bufs) i first_id block_id =
      search
        (
          frame_rules,
          F.reading.frame,
          write_block-Within ext F,
          call (clear_addr_loop-Within bufs (i + 1) first_id block_id),
        )
        depth 9

  remove_block_addr_in_first_block-Within :
      (first_id block_id : ℕ) → Within R (remove_block_addr_in_first_block ext first_id block_id)
  unfolding remove_block_addr_in_first_block
  remove_block_addr_in_first_block-Within first_id block_id =
      search
        (
          frame_rules,
          F.reading.frame,
          get_blocks_buffers-Within F.reading,
          get_block_buffer-Within F.reading,
          clear_addr_loop-Within,
          dealloc_data_bit-Within ext F,
        )
        depth 10

  clear_second_loop-Within :
      (bufs : List Bytes) (i last block_id : ℕ)
      → Within R (clear_second_loop ext bufs i last block_id)
  unfolding clear_second_loop
  clear_second_loop-Within [] i last block_id = search (frame_rules, F.reading.frame)
  clear_second_loop-Within (buf ∷ bufs) i last block_id =
      let rest : (id : ℕ) → Within R (clear_second_loop ext bufs (i + 1) id block_id) =
        λ id. clear_second_loop-Within bufs (i + 1) id block_id in
      search (frame_rules, F.reading.frame, remove_block_addr_in_first_block-Within) depth 9

  clear_direct_loop-Within :
      (n i block_id : ℕ) (inode : Inode) → Within R (clear_direct_loop ext n i block_id inode)
  unfolding clear_direct_loop
  clear_direct_loop-Within zero i block_id inode = search (frame_rules, F.reading.frame)
  clear_direct_loop-Within (suc n) i block_id inode =
      search
        (frame_rules, F.reading.frame, call (clear_direct_loop-Within n (i + 1) block_id inode))

  unlink_block-Within :
      (level : BlockLevel) (block_id : ℕ) (inode : Inode)
      → Within R (unlink_block ext level block_id inode)
  unfolding unlink_block
  unlink_block-Within BlockLevel.direct block_id inode =
      clear_direct_loop-Within direct_block_num 0 block_id inode
  unlink_block-Within BlockLevel.first_indirect block_id inode =
      search (frame_rules, F.reading.frame, remove_block_addr_in_first_block-Within) depth 8
  unlink_block-Within BlockLevel.second_indirect block_id inode =
      search
        (
          frame_rules,
          F.reading.frame,
          get_blocks_buffers-Within F.reading,
          get_block_buffer-Within F.reading,
          write_block-Within ext F,
          clear_second_loop-Within,
          dealloc_data_bit-Within ext F,
        )
        depth 14

  check_data_bits-Within : (n j i : ℕ) (byte : B) → Within R (check_data_bits ext n j i byte)
  unfolding check_data_bits
  check_data_bits-Within zero j i byte = search (frame_rules, F.reading.frame)
  check_data_bits-Within (suc n) j i byte =
      search
        (
          frame_rules,
          F.reading.frame,
          get_block_buffer-Within F.reading,
          dealloc_data_bit-Within ext F,
          call (check_data_bits-Within n (j + 1) i byte),
        )
        depth 10

  check_data_bytes-Within : (bytes : List B) (i : ℕ) → Within R (check_data_bytes ext bytes i)
  unfolding check_data_bytes
  check_data_bytes-Within [] i = search (frame_rules, F.reading.frame)
  check_data_bytes-Within (byte ∷ bytes) i =
      search
        (
          frame_rules,
          F.reading.frame,
          check_data_bits-Within,
          call (check_data_bytes-Within bytes (i + 1)),
        )
        depth 8

  pub check_data_and_fix-Within : Within R (check_data_and_fix ext)
  unfolding check_data_and_fix
  check_data_and_fix-Within = search (frame_rules, F.reading.frame, check_data_bytes-Within) depth 8

module _ {B T : Type 0} {R : World B → World B → Type 0} (ext : External B) (F : IsWriteFrame ext R)
    (object_type : Object T) where
  overwrite_loop-Within :
      (bufs : List Bytes) (i : ℕ) (object : T) (block_id : ℕ)
      → Within R (overwrite_loop ext object_type bufs i object block_id)
  unfolding overwrite_loop
  overwrite_loop-Within [] i object block_id = search (frame_rules, F.reading.frame)
  overwrite_loop-Within (buf ∷ bufs) i object block_id =
      search
        (
          frame_rules,
          F.reading.frame,
          write_block-Within ext F,
          call (overwrite_loop-Within bufs (i + 1) object block_id),
        )
        depth 9

  pub remove_object-Within :
      (object : T) (block_id : ℕ) (level : BlockLevel) (inode : Inode)
      → Within R (remove_object ext object_type object block_id level inode)
  unfolding remove_object
  remove_object-Within object block_id level inode =
      search
        (
          frame_rules,
          F.reading.frame,
          get_blocks_buffers-Within F.reading,
          get_block_buffer-Within F.reading,
          overwrite_loop-Within,
          dealloc_data_bit-Within ext F,
          unlink_block-Within ext F,
        )
        depth 12
