-- ===== src/Frame/Changing.antt =====
-- The calls of simdisk/src that change blocks and bitmaps: inodes and the objects in their blocks.
use simple_fs_rust.Base.{[], ◌∷◌, zero, suc, ◌-◌, Bytes, ◌+◌, List, ℕ}
use simple_fs_rust.State.{BitmapType, Inode, InodeType, Codec, External, World}
use simple_fs_rust.Bitmap.{
  dealloc_bit_in, on_bitmaps, alloc_bit, dealloc_data_bit, dealloc_data_bits, dealloc_inode_bit,
  dealloc_loop,
}
use simple_fs_rust.Cache.{write_file_content_to_blocks, clear_blocks, write_blocks, write_block}
use simple_fs_rust.Constants.{first_max}
use simple_fs_rust.Frame.{call, frame_rules, Within}
use simple_fs_rust.Frame.Reading.{IsReadFrame}
use simple_fs_rust.Inode.{
  rdwr, alloc_data_block, alloc_data_blocks, alloc_dir_inode, alloc_directs, alloc_entries,
  alloc_first_level, alloc_firsts, alloc_inode, alloc_second_level, cache_inode, create_dot,
  create_dot_dot, linkat, new_root, unlinkat,
}

-- A frame that also holds of writing to cached blocks, and of taking and freeing bits.
pub record IsWriteFrame {B : Type 0} (ext : External B) (R : World B → World B → Type 0)
    : Type 1 where
  pub reading : IsReadFrame R
  pub writes :
      {T : Type 0} (codec : Codec T) (args : List (T × ℕ × ℕ))
      → Within R (write_blocks {B = B} codec args)
  pub clears : (ids : List ℕ) → Within R (clear_blocks {B = B} ids)
  pub fills :
      (contents : List Bytes) (ids : List ℕ)
      → Within R (write_file_content_to_blocks {B = B} contents ids)
  pub takes : (ty : BitmapType) → Within R (alloc_bit ext ty)
  pub frees :
      (ty : BitmapType) (id : ℕ) → Within R (on_bitmaps ext (dealloc_bit_in (ext.bits) ty id))

module _ {B : Type 0} {R : World B → World B → Type 0} (ext : External B)
    (F : IsWriteFrame ext R) where
  pub write_block-Within :
      {T : Type 0} (codec : Codec T) (object : T) (id start : ℕ)
      → Within R (write_block {B = B} codec object id start)
  unfolding write_block
  write_block-Within codec object id start = F.writes codec ((object, id, start) ∷ [])

  pub cache_inode-Within : (inode : Inode) → Within R (cache_inode ext inode)
  unfolding cache_inode
  cache_inode-Within inode = search (frame_rules, F.reading.frame, write_block-Within)

  pub linkat-Within : (inode : Inode) → Within R (linkat ext inode)
  unfolding linkat
  linkat-Within inode = search (frame_rules, F.reading.frame, cache_inode-Within)

  pub unlinkat-Within : (inode : Inode) → Within R (unlinkat ext inode)
  unfolding unlinkat
  unlinkat-Within inode = search (frame_rules, F.reading.frame, cache_inode-Within)

  alloc_data_block-Within : Within R (alloc_data_block ext)
  unfolding alloc_data_block
  alloc_data_block-Within = search (frame_rules, F.reading.frame, F.takes)

  alloc_directs-Within : (n i : ℕ) (inode : Inode) → Within R (alloc_directs ext n i inode)
  unfolding alloc_directs
  alloc_directs-Within zero i inode = search (frame_rules, F.reading.frame)
  alloc_directs-Within (suc n) i inode =
      let rest : (next : Inode) → Within R (alloc_directs ext n (i + 1) next) =
        λ next. alloc_directs-Within n (i + 1) next in
      search (frame_rules, F.reading.frame, alloc_data_block-Within)

  alloc_entries-Within : (n i first_id : ℕ) → Within R (alloc_entries ext n i first_id)
  unfolding alloc_entries
  alloc_entries-Within zero i first_id = search (frame_rules, F.reading.frame)
  alloc_entries-Within (suc n) i first_id =
      search
        (
          frame_rules,
          F.reading.frame,
          alloc_data_block-Within,
          write_block-Within,
          call (alloc_entries-Within n (i + 1) first_id),
        )
        depth 8

  alloc_firsts-Within : (n i rest second_id : ℕ) → Within R (alloc_firsts ext n i rest second_id)
  unfolding alloc_firsts
  alloc_firsts-Within zero i rest second_id = search (frame_rules, F.reading.frame)
  alloc_firsts-Within (suc n) i rest second_id =
      search
        (
          frame_rules,
          F.reading.frame,
          alloc_data_block-Within,
          write_block-Within,
          alloc_entries-Within,
          call (alloc_firsts-Within n (i + 1) (rest - first_max) second_id),
        )
        depth 9

  alloc_first_level-Within : (n : ℕ) (inode : Inode) → Within R (alloc_first_level ext n inode)
  unfolding alloc_first_level
  alloc_first_level-Within n inode =
      search (frame_rules, F.reading.frame, alloc_data_block-Within, alloc_entries-Within) depth 8

  alloc_second_level-Within : (n : ℕ) (inode : Inode) → Within R (alloc_second_level ext n inode)
  unfolding alloc_second_level
  alloc_second_level-Within n inode =
      search (frame_rules, F.reading.frame, alloc_data_block-Within, alloc_firsts-Within) depth 8

  alloc_data_blocks-Within : (inode : Inode) → Within R (alloc_data_blocks ext inode)
  unfolding alloc_data_blocks
  alloc_data_blocks-Within inode =
      search
        (
          frame_rules, F.reading.frame, alloc_directs-Within, alloc_first_level-Within,
          alloc_second_level-Within,
        )
        depth 10

  create_dot-Within : (inode : Inode) → Within R (create_dot ext inode)
  unfolding create_dot
  create_dot-Within inode = search (frame_rules, F.reading.frame, linkat-Within) depth 8

  create_dot_dot-Within : (inode : Inode) → Within R (create_dot_dot ext inode)
  unfolding create_dot_dot
  create_dot_dot-Within inode = search (frame_rules, F.reading.frame, linkat-Within) depth 8

  pub new_root-Within : Within R (new_root ext)
  unfolding new_root
  new_root-Within =
      search
        (
          frame_rules, F.reading.frame, F.takes, alloc_data_blocks-Within, create_dot-Within,
          write_block-Within, cache_inode-Within,
        )
        depth 14

  pub alloc_inode-Within :
      (ty : InodeType) (parent : Inode) (mode size gid uid : ℕ)
      → Within R (alloc_inode ext ty parent mode size gid uid)
  unfolding alloc_inode
  alloc_inode-Within ty parent mode size gid uid =
      search
        (
          frame_rules, F.reading.frame, F.takes, alloc_data_blocks-Within, create_dot-Within,
          create_dot_dot-Within, write_block-Within, cache_inode-Within,
        )
        depth 14

  pub alloc_dir_inode-Within :
      (parent : Inode) (gid uid : ℕ) → Within R (alloc_dir_inode ext parent gid uid)
  unfolding alloc_dir_inode
  alloc_dir_inode-Within parent gid uid =
      alloc_inode-Within InodeType.directory parent rdwr 0 gid uid

  dealloc_loop-Within : (ids : List ℕ) → Within R (dealloc_loop ext ids)
  unfolding dealloc_loop
  dealloc_loop-Within [] = search (frame_rules, F.reading.frame)
  dealloc_loop-Within (id ∷ ids) =
      search (frame_rules, F.reading.frame, F.frees, call (dealloc_loop-Within ids)) depth 9

  pub dealloc_data_bits-Within : (ids : List ℕ) → Within R (dealloc_data_bits ext ids)
  unfolding dealloc_data_bits
  dealloc_data_bits-Within ids =
      search (frame_rules, F.reading.frame, F.clears, dealloc_loop-Within) depth 8

  pub dealloc_data_bit-Within : (id : ℕ) → Within R (dealloc_data_bit ext id)
  unfolding dealloc_data_bit
  dealloc_data_bit-Within id = dealloc_data_bits-Within (id ∷ [])

  pub dealloc_inode_bit-Within : (id : ℕ) → Within R (dealloc_inode_bit ext id)
  unfolding dealloc_inode_bit
  dealloc_inode_bit-Within id = F.frees BitmapType.inode id
