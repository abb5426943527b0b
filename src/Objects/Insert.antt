-- ===== src/Objects/Insert.antt =====
-- simdisk/src/block.rs: `insert_object`, `alloc_new_in_first` and `alloc_new_in_second`. A new block
-- has the number that `alloc_bit` returns, as in the source.
use simple_fs_rust.Base.{
  ℕ, zero, suc, ◌+◌, ◌==◌, ltb, List, [], ◌∷◌, if◌then◌else◌, length, get_or, set,
}
use simple_fs_rust.Constants.{direct_block_num, first_max, second_max}
use simple_fs_rust.State.{
  BlockLevel, BitmapType, Inode, External, Error, Outcome, err, M, pure, fail, lift, attempt, is_ok,
  ◌>>=◌, ◌>>◌,
}
use simple_fs_rust.Cache.{write_block}
use simple_fs_rust.Bitmap.{alloc_bit}
use simple_fs_rust.Objects.{
  Object, LeveledBlock, get_first_id, set_first_id, get_second_id, set_second_id, last_level,
  get_all_blocks, try_insert_to_block, block_id_object,
}

module _ {B T : Type 0} (ext : External B) (object_type : Object T) where
  open object_type use {codec}

  unfoldable pub alloc_new_in_first : ℕ → T → M B (Unit {0})
  alloc_new_in_first first_id object = do
    new_block_id ← alloc_bit ext BitmapType.data_block
    write_block codec object new_block_id 0
    try_insert_to_block ext (block_id_object ext) new_block_id first_id

  unfoldable pub alloc_new_in_second : ℕ → T → M B (Unit {0})
  alloc_new_in_second second_id object = do
    new_first_block ← alloc_bit ext BitmapType.data_block
    alloc_new_in_first new_first_block object
    try_insert_to_block ext (block_id_object ext) new_first_block second_id

  -- The first loop of `insert_object`: whether a block had room.
  unfoldable pub insert_loop : T → List LeveledBlock → M B (Outcome (Unit {0}))
  insert_loop object [] = pure (err Error.no_enough_blocks)
  insert_loop object (b ∷ bs) =
      let next = insert_loop object bs in
      do
        r ← attempt (try_insert_to_block ext object_type object b.1)
        if is_ok r then pure r else next

  -- The loop over the direct addresses from `i`, with `n` left: the first that is 0 takes a new
  -- block. Behind them a first-level block is made.
  unfoldable pub alloc_direct_loop : ℕ → ℕ → T → Inode → M B Inode
  alloc_direct_loop zero i object inode = do
    new_first_id ← alloc_bit ext BitmapType.data_block
    alloc_new_in_first new_first_id object
    pure (set_first_id new_first_id inode)
  alloc_direct_loop (suc n) i object inode =
      let next = alloc_direct_loop n (i + 1) object inode in
      if get_or inode.addr i 0 == 0
      then (do
        new_block_id ← alloc_bit ext BitmapType.data_block
        write_block codec object new_block_id 0
        pure (record inode { addr = set inode.addr i new_block_id }))
      else next

  -- The `match` on the level of the last block, for an inode with `count` blocks.
  unfoldable pub insert_at_level : BlockLevel → ℕ → T → Inode → M B Inode
  insert_at_level BlockLevel.direct count object inode =
      alloc_direct_loop direct_block_num 0 object inode
  insert_at_level BlockLevel.first_indirect count object inode =
      if ltb count (first_max + direct_block_num)
      then (do alloc_new_in_first (get_first_id inode) object; pure inode)
      else (do
        new_second_id ← alloc_bit ext BitmapType.data_block
        alloc_new_in_second new_second_id object
        pure (set_second_id new_second_id inode))
  insert_at_level BlockLevel.second_indirect count object inode =
      if ltb count (second_max + first_max + direct_block_num)
      then (do alloc_new_in_second (get_second_id inode) object; pure inode)
      else fail Error.no_valid_block

  -- `insert_object`: the inode as it stands after the call.
  unfoldable pub insert_object : T → Inode → M B Inode
  insert_object object inode = do
    all_blocks ← get_all_blocks ext inode
    r ← insert_loop object all_blocks
    if is_ok r then pure inode else (do
      level ← lift (last_level all_blocks)
      insert_at_level level (length all_blocks) object inode)
