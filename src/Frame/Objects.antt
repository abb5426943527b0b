-- ===== src/Frame/Objects.antt =====
-- `insert_object` of simdisk/src/block.rs.
use simple_fs_rust.Base.{[], ◌∷◌, zero, suc, ◌+◌, ◌/◌, List, ℕ}
use simple_fs_rust.State.{Inode, BlockLevel, External, World}
use simple_fs_rust.Constants.{block_size, direct_block_num}
use simple_fs_rust.Frame.{call, frame_rules, Within}
use simple_fs_rust.Frame.Changing.{write_block-Within, IsWriteFrame}
use simple_fs_rust.Frame.Reading.{get_block_buffer-Within, get_all_blocks-Within}
use simple_fs_rust.Objects.{
  LeveledBlock, block_id_object, try_insert_loop, try_insert_to_block, Object,
}
use simple_fs_rust.Objects.Insert.{
  alloc_direct_loop, alloc_new_in_first, alloc_new_in_second, insert_at_level, insert_loop,
  insert_object,
}

module _ {B T : Type 0} {R : World B → World B → Type 0} (ext : External B) (F : IsWriteFrame ext R)
    (object_type : Object T) where
  try_insert_loop-Within :
      (n i : ℕ) (object : T) (id : ℕ) → Within R (try_insert_loop ext object_type n i object id)
  unfolding try_insert_loop
  try_insert_loop-Within zero i object id = search (frame_rules, F.reading.frame)
  try_insert_loop-Within (suc n) i object id =
      search
        (
          frame_rules,
          F.reading.frame,
          get_block_buffer-Within F.reading,
          write_block-Within ext F,
          call (try_insert_loop-Within n (i + 1) object id),
        )
        depth 10

  pub try_insert_to_block-Within :
      (object : T) (id : ℕ) → Within R (try_insert_to_block ext object_type object id)
  unfolding try_insert_to_block
  try_insert_to_block-Within object id =
      try_insert_loop-Within (block_size / object_type.size) 0 object id

module _ {B T : Type 0} {R : World B → World B → Type 0} (ext : External B) (F : IsWriteFrame ext R)
    (object_type : Object T) where
  alloc_new_in_first-Within :
      (first_id : ℕ) (object : T) → Within R (alloc_new_in_first ext object_type first_id object)
  unfolding alloc_new_in_first
  alloc_new_in_first-Within first_id object =
      search
        (
          frame_rules,
          F.reading.frame,
          F.takes,
          write_block-Within ext F,
          try_insert_to_block-Within ext F (block_id_object ext),
        )
        depth 9

  alloc_new_in_second-Within :
      (second_id : ℕ) (object : T) → Within R (alloc_new_in_second ext object_type second_id object)
  unfolding alloc_new_in_second
  alloc_new_in_second-Within second_id object =
      search
        (
          frame_rules,
          F.reading.frame,
          F.takes,
          alloc_new_in_first-Within,
          try_insert_to_block-Within ext F (block_id_object ext),
        )
        depth 9

  insert_loop-Within :
      (object : T) (bs : List LeveledBlock) → Within R (insert_loop ext object_type object bs)
  unfolding insert_loop
  insert_loop-Within object [] = search (frame_rules, F.reading.frame)
  insert_loop-Within object (b ∷ bs) =
      search
        (
          frame_rules,
          F.reading.frame,
          try_insert_to_block-Within ext F object_type,
          call (insert_loop-Within object bs),
        )
        depth 9

  alloc_direct_loop-Within :
      (n i : ℕ) (object : T) (inode : Inode)
      → Within R (alloc_direct_loop ext object_type n i object inode)
  unfolding alloc_direct_loop
  alloc_direct_loop-Within zero i object inode =
      search (frame_rules, F.reading.frame, F.takes, alloc_new_in_first-Within) depth 9
  alloc_direct_loop-Within (suc n) i object inode =
      search
        (
          frame_rules,
          F.reading.frame,
          F.takes,
          write_block-Within ext F,
          call (alloc_direct_loop-Within n (i + 1) object inode),
        )
        depth 9

  insert_at_level-Within :
      (level : BlockLevel) (count : ℕ) (object : T) (inode : Inode)
      → Within R (insert_at_level ext object_type level count object inode)
  unfolding insert_at_level
  insert_at_level-Within BlockLevel.direct count object inode =
      alloc_direct_loop-Within direct_block_num 0 object inode
  insert_at_level-Within BlockLevel.first_indirect count object inode =
      search
        (
          frame_rules, F.reading.frame, F.takes, alloc_new_in_first-Within,
          alloc_new_in_second-Within,
        )
        depth 9
  insert_at_level-Within BlockLevel.second_indirect count object inode =
      search (frame_rules, F.reading.frame, alloc_new_in_second-Within) depth 9

  pub insert_object-Within :
      (object : T) (inode : Inode) → Within R (insert_object ext object_type object inode)
  unfolding insert_object
  insert_object-Within object inode =
      search
        (
          frame_rules,
          F.reading.frame,
          get_all_blocks-Within F.reading ext,
          insert_loop-Within,
          insert_at_level-Within,
        )
        depth 9
