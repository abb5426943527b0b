-- ===== src/Frame/Inodes.antt =====
-- The release of inodes of simdisk/src/inode.rs, and the check of the bitmaps.
use simple_fs_rust.Base.{◌+◌, List, ℕ, [], ◌∷◌, zero, suc}
use simple_fs_rust.State.{Inode, External, World}
use simple_fs_rust.Frame.{Within->>, call, frame_rules, Within}
use simple_fs_rust.Frame.Changing.{
  dealloc_data_bits-Within, unlinkat-Within, dealloc_data_bit-Within, dealloc_inode_bit-Within,
  IsWriteFrame,
}
use simple_fs_rust.Frame.Reading.{
  direct_ids_loop-Within, get_block_buffer-Within, get_blocks_buffers-Within, read_inode-Within,
}
use simple_fs_rust.Frame.Removal.{check_data_and_fix-Within}
use simple_fs_rust.Inode.Dealloc.{
  check_inode_bits, check_inode_bytes, check_inodes_and_fix, dealloc, dealloc_directs,
  dealloc_first_arr_blocks, dealloc_first_blocks, dealloc_indirect, second_entries,
}
use simple_fs_rust.Objects.Remove.{check_data_and_fix}
use simple_fs_rust.SimpleFs.{check_bitmaps_and_fix}

module _ {B : Type 0} {R : World B → World B → Type 0} (ext : External B)
    (F : IsWriteFrame ext R) where
  dealloc_first_arr_blocks-Within : (ids : List ℕ) → Within R (dealloc_first_arr_blocks ext ids)
  unfolding dealloc_first_arr_blocks
  dealloc_first_arr_blocks-Within ids =
      search
        (
          frame_rules,
          F.reading.frame,
          get_blocks_buffers-Within F.reading,
          direct_ids_loop-Within F.reading ext,
          dealloc_data_bits-Within ext F,
        )
        depth 9

  dealloc_first_blocks-Within : (id : ℕ) → Within R (dealloc_first_blocks ext id)
  unfolding dealloc_first_blocks
  dealloc_first_blocks-Within id = dealloc_first_arr_blocks-Within (id ∷ [])

  dealloc_directs-Within : (n i : ℕ) (inode : Inode) → Within R (dealloc_directs ext n i inode)
  unfolding dealloc_directs
  dealloc_directs-Within zero i inode = search (frame_rules, F.reading.frame)
  dealloc_directs-Within (suc n) i inode =
      search
        (
          frame_rules,
          F.reading.frame,
          dealloc_data_bit-Within ext F,
          call (dealloc_directs-Within n (i + 1) inode),
        )
        depth 9

  second_entries-Within : (n i second_id : ℕ) → Within R (second_entries ext n i second_id)
  unfolding second_entries
  second_entries-Within zero i second_id = search (frame_rules, F.reading.frame)
  second_entries-Within (suc n) i second_id =
      search
        (
          frame_rules,
          F.reading.frame,
          get_block_buffer-Within F.reading,
          call (second_entries-Within n (i + 1) second_id),
        )
        depth 9

  dealloc_indirect-Within : (inode : Inode) → Within R (dealloc_indirect ext inode)
  unfolding dealloc_indirect
  dealloc_indirect-Within inode =
      search
        (
          frame_rules,
          F.reading.frame,
          second_entries-Within,
          dealloc_first_blocks-Within,
          dealloc_first_arr_blocks-Within,
          dealloc_data_bit-Within ext F,
          dealloc_data_bits-Within ext F,
        )
        depth 14

  pub dealloc-Within : (inode : Inode) → Within R (dealloc ext inode)
  unfolding dealloc
  dealloc-Within inode =
      search
        (
          frame_rules,
          F.reading.frame,
          dealloc_inode_bit-Within ext F,
          unlinkat-Within ext F,
          dealloc_directs-Within,
          dealloc_indirect-Within,
        )
        depth 12

  check_inode_bits-Within : (n j i : ℕ) (byte : B) → Within R (check_inode_bits ext n j i byte)
  unfolding check_inode_bits
  check_inode_bits-Within zero j i byte = search (frame_rules, F.reading.frame)
  check_inode_bits-Within (suc n) j i byte =
      search
        (
          frame_rules,
          F.reading.frame,
          read_inode-Within F.reading ext,
          dealloc_inode_bit-Within ext F,
          call (check_inode_bits-Within n (j + 1) i byte),
        )
        depth 12

  check_inode_bytes-Within : (bytes : List B) (i : ℕ) → Within R (check_inode_bytes ext bytes i)
  unfolding check_inode_bytes
  check_inode_bytes-Within [] i = search (frame_rules, F.reading.frame)
  check_inode_bytes-Within (byte ∷ bytes) i =
      search
        (
          frame_rules,
          F.reading.frame,
          check_inode_bits-Within,
          call (check_inode_bytes-Within bytes (i + 1)),
        )
        depth 8

  check_inodes_and_fix-Within : Within R (check_inodes_and_fix ext)
  unfolding check_inodes_and_fix
  check_inodes_and_fix-Within =
      search (frame_rules, F.reading.frame, check_inode_bytes-Within) depth 8

  pub check_bitmaps_and_fix-Within : Within R (check_bitmaps_and_fix ext)
  unfolding check_bitmaps_and_fix
  check_bitmaps_and_fix-Within =
      Within->> F.reading.frame (check_inodes_and_fix ext) (check_data_and_fix ext)
        check_inodes_and_fix-Within (check_data_and_fix-Within ext F)
