-- ===== src/Frame/Reading.antt =====
-- The calls of simdisk/src that read, and which call nothing that changes more than the cache.
use simple_fs_rust.Base.{Option, Bytes, ℕ, List, [], ◌∷◌, zero, suc, none, some}
use simple_fs_rust.State.{
  BlockLevel, DirEntry, Inode, Outcome, M, External, World, panic, diverge, err, ok,
}
use simple_fs_rust.Cache.{
  after_pass, first_buffer, read_blocks_to_cache, get_block_buffer, get_blocks_buffers,
  get_blocks_buffers_loop,
}
use simple_fs_rust.Dirent.{
  split_on, behind_first, cd_loop, dirents_of_blocks, dirents_of_buffers, get_all_dirent,
  get_block_id_and_try_update, try_cd, cd,
}
use simple_fs_rust.File.{get_file_content}
use simple_fs_rust.Frame.{call, frame_rules, Within, IsFrame}
use simple_fs_rust.Inode.{read_inode}
use simple_fs_rust.Objects.{
  LeveledBlock, get_all_blocks, get_all_valid_blocks, direct_ids_loop, first_ids_loop,
  get_block_of_first_arr, get_blocks_of_first, get_blocks_of_second, get_indirect_blocks,
}

-- A frame that holds of reading blocks into the cache.
pub record IsReadFrame {B : Type 0} (R : World B → World B → Type 0) : Type 0 where
  pub frame : IsFrame R
  pub reads : (ids : List ℕ) → Within R (read_blocks_to_cache {B = B} ids)

module _ {B : Type 0} {R : World B → World B → Type 0} (F : IsReadFrame R) where
  after_pass-Within :
      (m : M B (List Bytes)) (o : Outcome (Option (List Bytes)))
      → Within R m
      → Within R (after_pass m o)
  after_pass-Within m (ok none) k = record { run = λ w. k.run w }
  after_pass-Within m (ok (some bufs)) k = record { run = λ w. (F.frame).refl_lem w }
  after_pass-Within m (err e) k = record { run = λ w. (F.frame).refl_lem w }
  after_pass-Within m panic k = record { run = λ w. (F.frame).refl_lem w }
  after_pass-Within m diverge k = record { run = λ w. (F.frame).refl_lem w }

  get_blocks_buffers_loop-Within :
      (n : ℕ) (args : List (ℕ × ℕ × ℕ)) → Within R (get_blocks_buffers_loop n args)
  unfolding get_blocks_buffers_loop
  get_blocks_buffers_loop-Within zero args = search (frame_rules, F.frame)
  get_blocks_buffers_loop-Within (suc n) args = search (
    frame_rules,
    F.frame,
    F.reads,
    after_pass-Within,
    call (get_blocks_buffers_loop-Within n args),
  )

  pub first_buffer-Within : (bufs : List Bytes) → Within R (first_buffer bufs)
  first_buffer-Within [] = search (frame_rules, F.frame)
  first_buffer-Within (b ∷ bs) = search (frame_rules, F.frame)

  pub get_blocks_buffers-Within : (args : List (ℕ × ℕ × ℕ)) → Within R (get_blocks_buffers args)
  unfolding get_blocks_buffers
  get_blocks_buffers-Within args = get_blocks_buffers_loop-Within 1 args

  pub get_block_buffer-Within : (id start end : ℕ) → Within R (get_block_buffer id start end)
  unfolding get_block_buffer
  get_block_buffer-Within id start end =
      search (frame_rules, F.frame, get_blocks_buffers-Within, first_buffer-Within)

module _ {B : Type 0} {R : World B → World B → Type 0} (F : IsReadFrame R) (ext : External B) where
  pub read_inode-Within : (id : ℕ) → Within R (read_inode ext id)
  unfolding read_inode
  read_inode-Within id = search (frame_rules, F.frame, get_block_buffer-Within F)

  pub direct_ids_loop-Within : (bufs : List Bytes) → Within R (direct_ids_loop ext bufs)
  unfolding direct_ids_loop
  direct_ids_loop-Within [] = search (frame_rules, F.frame)
  direct_ids_loop-Within (buf ∷ bufs) =
      search (frame_rules, F.frame, call (direct_ids_loop-Within bufs))

  get_block_of_first_arr-Within : (ids : List ℕ) → Within R (get_block_of_first_arr ext ids)
  unfolding get_block_of_first_arr
  get_block_of_first_arr-Within ids =
      search (frame_rules, F.frame, get_blocks_buffers-Within F, direct_ids_loop-Within)

  pub first_ids_loop-Within : (bufs : List Bytes) → Within R (first_ids_loop ext bufs)
  unfolding first_ids_loop
  first_ids_loop-Within [] = search (frame_rules, F.frame)
  first_ids_loop-Within (buf ∷ bufs) =
      search (frame_rules, F.frame, call (first_ids_loop-Within bufs))

  get_blocks_of_second-Within : (id : ℕ) → Within R (get_blocks_of_second ext id)
  unfolding get_blocks_of_second
  get_blocks_of_second-Within id = search (
    frame_rules,
    F.frame,
    get_blocks_buffers-Within F,
    first_ids_loop-Within,
    get_block_of_first_arr-Within,
  )

  get_blocks_of_first-Within : (id : ℕ) → Within R (get_blocks_of_first ext id)
  unfolding get_blocks_of_first
  get_blocks_of_first-Within id = get_block_of_first_arr-Within (id ∷ [])

  get_indirect_blocks-Within : (inode : Inode) → Within R (get_indirect_blocks ext inode)
  unfolding get_indirect_blocks
  get_indirect_blocks-Within inode =
      search (frame_rules, F.frame, get_blocks_of_first-Within, get_blocks_of_second-Within)

  pub get_all_blocks-Within : (inode : Inode) → Within R (get_all_blocks ext inode)
  unfolding get_all_blocks
  get_all_blocks-Within inode =
      search (frame_rules, F.frame, get_blocks_buffers-Within F, get_indirect_blocks-Within)

  pub get_all_valid_blocks-Within : (inode : Inode) → Within R (get_all_valid_blocks ext inode)
  unfolding get_all_valid_blocks
  get_all_valid_blocks-Within inode = search (frame_rules, F.frame, get_all_blocks-Within)

  dirents_of_buffers-Within :
      (level : BlockLevel) (id : ℕ) (bufs : List Bytes)
      → Within R (dirents_of_buffers ext level id bufs)
  unfolding dirents_of_buffers
  dirents_of_buffers-Within level id [] = search (frame_rules, F.frame)
  dirents_of_buffers-Within level id (buf ∷ bufs) =
      search (frame_rules, F.frame, call (dirents_of_buffers-Within level id bufs))

  dirents_of_blocks-Within : (blocks : List LeveledBlock) → Within R (dirents_of_blocks ext blocks)
  unfolding dirents_of_blocks
  dirents_of_blocks-Within [] = search (frame_rules, F.frame)
  dirents_of_blocks-Within (b ∷ bs) =
      search
        (
          frame_rules,
          F.frame,
          get_blocks_buffers-Within F,
          dirents_of_buffers-Within,
          call (dirents_of_blocks-Within bs),
        )
        depth 12

  pub get_all_dirent-Within : (inode : Inode) → Within R (get_all_dirent ext inode)
  unfolding get_all_dirent
  get_all_dirent-Within inode =
      search (frame_rules, F.frame, get_all_valid_blocks-Within, dirents_of_blocks-Within)

  pub get_block_id_and_try_update-Within :
      (d : DirEntry) (inode : Inode) → Within R (get_block_id_and_try_update ext d inode)
  unfolding get_block_id_and_try_update
  get_block_id_and_try_update-Within d inode = search (frame_rules, F.frame, get_all_dirent-Within)

  try_cd-Within : (name : Bytes) (inode : Inode) → Within R (try_cd ext name inode)
  unfolding try_cd
  try_cd-Within name inode =
      search (frame_rules, F.frame, get_block_id_and_try_update-Within, read_inode-Within) depth 12

  cd_loop-Within : (ps : List Bytes) (inode : Inode) → Within R (cd_loop ext ps inode)
  unfolding cd_loop
  cd_loop-Within [] inode = search (frame_rules, F.frame)
  cd_loop-Within (p ∷ ps) inode =
      let rest : (target : Inode) → Within R (cd_loop ext ps target) =
        λ target. cd_loop-Within ps target in
      search (frame_rules, F.frame, try_cd-Within)

  pub cd-Within : (path : Bytes) (inode : Inode) → Within R (cd ext path inode)
  unfolding cd
  cd-Within path inode = cd_loop-Within (behind_first (split_on b'/' path)) inode

  pub get_file_content-Within :
      (name : Bytes) (parent : Inode) → Within R (get_file_content ext name parent)
  unfolding get_file_content
  get_file_content-Within name parent =
      search
        (
          frame_rules, F.frame, get_block_id_and_try_update-Within, read_inode-Within,
          get_all_valid_blocks-Within,
        )
        depth 12
