-- ===== src/Frame/Puts.antt =====
-- The loops of simdisk/src/block.rs and bitmap.rs that change cached blocks, for frames that hold of
-- every change of a cached block and of the bitmaps.
use simple_fs_rust.Base.{inr, inl, splice, Option-cases, length, leb, Bytes, List, ℕ, [], ◌∷◌}
use simple_fs_rust.State.{
  or_crash, gets, assert, ◌>>=◌, ◌>>◌, Outcome, crash, BitmapManager, BitmapType, Block, Codec,
  External, World,
}
use simple_fs_rust.Bitmap.{
  on_bitmaps, alloc_bit_in, dealloc_bit_in, alloc_bit, cache_to_block, write_bitmaps_loop,
}
use simple_fs_rust.Cache.{
  modify_bytes, lookup, read_blocks_to_cache, put_block, clear_blocks, clear_loop, get_block_mut,
  write_blocks, write_blocks_loop, write_contents_loop, write_file_content_to_blocks,
}
use simple_fs_rust.Constants.{block_size}
use simple_fs_rust.Frame.{Within-crash, Within->>=, call, frame_rules, Within}
use simple_fs_rust.Frame.Changing.{IsWriteFrame}
use simple_fs_rust.Frame.Reading.{IsReadFrame}

pub record IsPutFrame {B : Type 0} (ext : External B) (R : World B → World B → Type 0)
    : Type 1 where
  pub reading : IsReadFrame R
  pub puts : (id : ℕ) (b : Block) → Within R (put_block {B = B} id b)
  pub bitmaps :
      {A : Type 0} (f : BitmapManager B → Outcome A × BitmapManager B) → Within R (on_bitmaps ext f)

module _ {B : Type 0} {R : World B → World B → Type 0} (ext : External B)
    (F : IsPutFrame ext R) where
  get_block_mut-Within : (id : ℕ) (ids : List ℕ) → Within R (get_block_mut {B = B} id ids)
  unfolding get_block_mut
  get_block_mut-Within id ids = record {
    run = λ w. elim (Option-cases (lookup id w.manager.block_cache)) [
      | inl e ↦ rw (e, get_block_mut) (load.run w)
      | inr (b, e) ↦ rw (e, get_block_mut) (F.reading.frame.refl_lem w)
    ];
  }
    where
      load : Within R (do
        read_blocks_to_cache {B = B} ids
        c ← gets (λ v. v.manager.block_cache)
        or_crash (lookup id c))
      load = search (frame_rules, F.reading.frame, F.reading.reads) depth 8

  write_contents_loop-Within :
      (contents : List Bytes) (ids all_ids : List ℕ)
      → Within R (write_contents_loop {B = B} contents ids all_ids)
  unfolding write_contents_loop
  write_contents_loop-Within contents [] all_ids = search (frame_rules, F.reading.frame)
  write_contents_loop-Within [] (id ∷ ids) all_ids =
      Within->>= F.reading.frame (get_block_mut id all_ids) (λ b. crash)
        (get_block_mut-Within id all_ids) (λ b. Within-crash F.reading.frame)
  write_contents_loop-Within (c ∷ cs) (id ∷ ids) all_ids =
      let step : (b : Block)
          → Within R (do
            assert {B = B} (leb (length c) block_size)
            put_block id (modify_bytes (splice 0 c) b)
            write_contents_loop cs ids all_ids) =
        λ b.
          search
            (frame_rules, F.reading.frame, F.puts, call (write_contents_loop-Within cs ids all_ids))
            depth 9 in
      Within->>= F.reading.frame (get_block_mut id all_ids) _ (get_block_mut-Within id all_ids) step

  fills-Within :
      (contents : List Bytes) (ids : List ℕ)
      → Within R (write_file_content_to_blocks {B = B} contents ids)
  unfolding write_file_content_to_blocks
  fills-Within contents ids =
      search (frame_rules, F.reading.frame, F.reading.reads, write_contents_loop-Within) depth 8

  clear_loop-Within : (ids all_ids : List ℕ) → Within R (clear_loop {B = B} ids all_ids)
  unfolding clear_loop
  clear_loop-Within [] all_ids = search (frame_rules, F.reading.frame)
  clear_loop-Within (id ∷ ids) all_ids =
      search
        (
          frame_rules,
          F.reading.frame,
          get_block_mut-Within,
          F.puts,
          call (clear_loop-Within ids all_ids),
        )
        depth 9

  clears-Within : (ids : List ℕ) → Within R (clear_blocks {B = B} ids)
  unfolding clear_blocks
  clears-Within ids =
      search (frame_rules, F.reading.frame, F.reading.reads, clear_loop-Within) depth 8

  write_blocks_loop-Within :
      {T : Type 0} (codec : Codec T) (args : List (T × ℕ × ℕ)) (ids : List ℕ)
      → Within R (write_blocks_loop {B = B} codec args ids)
  unfolding write_blocks_loop
  write_blocks_loop-Within codec [] ids = search (frame_rules, F.reading.frame)
  write_blocks_loop-Within codec ((object, id, start) ∷ args) ids =
      search
        (
          frame_rules,
          F.reading.frame,
          get_block_mut-Within,
          F.puts,
          call (write_blocks_loop-Within codec args ids),
        )
        depth 10

  writes-Within :
      {T : Type 0} (codec : Codec T) (args : List (T × ℕ × ℕ))
      → Within R (write_blocks {B = B} codec args)
  unfolding write_blocks
  writes-Within codec args =
      search (frame_rules, F.reading.frame, F.reading.reads, write_blocks_loop-Within codec) depth 8

  write_bitmaps_loop-Within :
      (rest ids : List ℕ) (start : ℕ) (bitmap : List B)
      → Within R (write_bitmaps_loop ext rest ids start bitmap)
  unfolding write_bitmaps_loop
  write_bitmaps_loop-Within [] ids start bitmap = search (frame_rules, F.reading.frame)
  write_bitmaps_loop-Within (id ∷ rest) ids start bitmap =
      search
        (
          frame_rules,
          F.reading.frame,
          get_block_mut-Within,
          F.puts,
          call (write_bitmaps_loop-Within rest ids start bitmap),
        )
        depth 10

  pub cache_to_block-Within : Within R (cache_to_block ext)
  unfolding cache_to_block
  cache_to_block-Within =
      search (frame_rules, F.reading.frame, F.reading.reads, write_bitmaps_loop-Within) depth 9

  takes-Within : (ty : BitmapType) → Within R (alloc_bit ext ty)
  unfolding alloc_bit
  takes-Within ty = F.bitmaps (alloc_bit_in (ext.bits) ty)

  pub IsPutFrame-IsWriteFrame : IsWriteFrame ext R
  IsPutFrame-IsWriteFrame = record {
    reading = F.reading;
    writes = writes-Within;
    clears = clears-Within;
    fills = fills-Within;
    takes = takes-Within;
    frees = λ ty id. F.bitmaps (dealloc_bit_in (ext.bits) ty id);
  }
