-- ===== src/Frame/Sound.antt =====
-- The invariant of the server's state, and the loops of simdisk/src/block.rs that change blocks:
-- they keep it, however they end.
pub mod Bitmaps
pub mod Reading
pub mod Commands
pub mod Start
use simple_fs_rust.Base.{
  length-drop, length-take, length-map, map, drop, take, ◌*◌, ◌-◌, ◌∙◌, leb→le, arith,
  length-splice, splice, ◌+◌, inr, length, length-replicate, inl, leb, ◌≡◌, Bool-cases,
  Option-cases, replicate, Bytes, List, ℕ, [], ◌∷◌, true, false, none, some, refl,
}
use simple_fs_rust.State.{
  or_crash, ◌>>=◌, ◌>>◌, gets, and_then, Outcome, M, BitmapType, Block, Codec, BitmapManager,
  External, World, ok, err, panic, diverge,
}
use simple_fs_rust.Bitmap.{cache_to_block, write_bitmaps_loop}
use simple_fs_rust.Bitmap.Manager.{IsReady}
use simple_fs_rust.Cache.{
  insert, with_cache, lookup, sync_and_clear_cache, clear_blocks, clear_loop, get_block_mut,
  read_blocks_to_cache, write_blocks, write_blocks_loop, write_contents_loop,
  write_file_content_to_blocks,
}
use simple_fs_rust.Cache.Buffers.{Coherent}
use simple_fs_rust.Cache.Sync.{sync_and_clear_cache-IsSynced}
use simple_fs_rust.Cache.Write.{dirty-Puts, dirty}
use simple_fs_rust.Constants.{block_size}
use simple_fs_rust.Frame.{Within-pure, frame_rules, IsFrame, Within}
use simple_fs_rust.Frame.Store.{read_blocks_loop-Keeps}

-- Both bitmaps are ready for the search of a free bit.
abbrev pub BothReady : {B : Type 0} → BitmapManager B → Type 0
BothReady m = (ty : BitmapType) → IsReady ty m

module _ {B : Type 0} where
  -- The cache agrees with the host's file, and the bitmaps can be searched.
  pub record IsSound (w : World B) : Type 0 where
    pub coherent : Coherent w
    pub ready : BothReady w.bitmaps

  pub record KeepsSound (w w' : World B) : Type 0 where
    pub keep : IsSound w → IsSound w'

  pub KeepsSound-IsFrame : IsFrame KeepsSound
  KeepsSound-IsFrame = record {
    refl_lem = λ w. record { keep = λ s. s };
    trans_lem = λ u v w h k. record { keep = λ s. k.keep (h.keep s) };
  }

  pub reads-Within : (ids : List ℕ) → Within KeepsSound (read_blocks_to_cache {B = B} ids)
  unfolding read_blocks_to_cache
  reads-Within ids = record {
    run = λ w. record {
      keep = λ s. record {
        coherent = (read_blocks_loop-Keeps ids w.disk w.manager.block_cache s.coherent).coherent;
        ready = s.ready;
      };
    };
  }

  -- A cached block changed in place.
  put-IsSound :
      (w : World B) (id : ℕ) (b : Block) (bs : Bytes)
      → IsSound w
      → lookup id w.manager.block_cache ≡ some b
      → length bs ≡ block_size
      → IsSound (with_cache w (insert id (dirty b bs) w.manager.block_cache))
  put-IsSound w id b bs s e size = record {
    coherent = (dirty-Puts w.disk w.manager.block_cache id b bs s.coherent e size).coherent;
    ready = s.ready;
  }

  -- What follows `get_block_mut`, from a sound world that has the block.
  Follows : {C : Type 0} → ℕ → (Block → M B C) → Type 0
  Follows id f =
      (b : Block) (w : World B)
      → IsSound w
      → lookup id w.manager.block_cache ≡ some b
      → IsSound (f b w).1

  after_load :
      {C : Type 0} (id : ℕ) (f : Block → M B C) (p : Outcome (Unit {0}) × World B)
      → Follows id f
      → IsSound p.1
      → IsSound
          (and_then
            (and_then p (λ _. gets (λ v. v.manager.block_cache) >>= λ c. or_crash (lookup id c)))
            f).1
  unfolding Follows
  after_load id f (ok _, w) h s = elim (Option-cases (lookup id w.manager.block_cache)) [
    | inl e ↦ rw e s
    | inr (b, e) ↦ rw e (h b w s e)
  ]
  after_load id f (err x, w) h s = s
  after_load id f (panic, w) h s = s
  after_load id f (diverge, w) h s = s

  get_block_mut-then :
      {C : Type 0} (id : ℕ) (ids : List ℕ) (f : Block → M B C)
      → Follows id f
      → Within KeepsSound (get_block_mut id ids >>= f)
  unfolding get_block_mut Follows
  get_block_mut-then id ids f h = record {
    run = λ w. record {
      keep = λ s. elim (Option-cases (lookup id w.manager.block_cache)) [
        | inl e ↦
            rw (e, get_block_mut)
              (after_load id f (read_blocks_to_cache ids w) h (((reads-Within ids).run w).keep s))
        | inr (b, e) ↦ rw (e, get_block_mut) (h b w s e)
      ];
    };
  }

  write_contents_loop-Within :
      (contents : List Bytes) (ids all_ids : List ℕ)
      → Within KeepsSound (write_contents_loop {B = B} contents ids all_ids)
  unfolding write_contents_loop Follows
  write_contents_loop-Within contents [] all_ids = Within-pure KeepsSound-IsFrame tt
  write_contents_loop-Within [] (id ∷ ids) all_ids = get_block_mut-then id all_ids _ (λ b w s e. s)
  write_contents_loop-Within (c ∷ cs) (id ∷ ids) all_ids =
      get_block_mut-then id all_ids _ (λ b w s e. elim (Bool-cases (leb (length c) block_size)) [
        | inl fits ↦
            let size : length (splice 0 c b.bytes) ≡ block_size =
              length-splice 0 c b.bytes
                (omega (arith, (s.coherent.entries id b e).size, leb→le _ _ fits))
              ∙ (s.coherent.entries id b e).size in
            rw fits (
              ((write_contents_loop-Within cs ids all_ids).run _).keep
                (put-IsSound w id b (splice 0 c b.bytes) s e size))
        | inr long ↦ rw long s
      ])

  pub fills-Within :
      (contents : List Bytes) (ids : List ℕ)
      → Within KeepsSound (write_file_content_to_blocks {B = B} contents ids)
  unfolding write_file_content_to_blocks
  fills-Within contents ids =
      search (frame_rules, KeepsSound-IsFrame, reads-Within, write_contents_loop-Within) depth 8

  clear_loop-Within : (ids all_ids : List ℕ) → Within KeepsSound (clear_loop {B = B} ids all_ids)
  unfolding clear_loop Follows
  clear_loop-Within [] all_ids = Within-pure KeepsSound-IsFrame tt
  clear_loop-Within (id ∷ ids) all_ids = get_block_mut-then id all_ids _ (λ b w s e.
      ((clear_loop-Within ids all_ids).run _).keep
        (put-IsSound w id b (replicate block_size 0) s e (length-replicate {A = ℕ} block_size 0)))

  pub clears-Within : (ids : List ℕ) → Within KeepsSound (clear_blocks {B = B} ids)
  unfolding clear_blocks
  clears-Within ids =
      search (frame_rules, KeepsSound-IsFrame, reads-Within, clear_loop-Within) depth 8

  write_blocks_loop-Within :
      {T : Type 0} (codec : Codec T) (args : List (T × ℕ × ℕ)) (ids : List ℕ)
      → Within KeepsSound (write_blocks_loop {B = B} codec args ids)
  unfolding write_blocks_loop Follows
  write_blocks_loop-Within codec [] ids = Within-pure KeepsSound-IsFrame tt
  write_blocks_loop-Within codec ((object, id, start) ∷ args) ids =
      get_block_mut-then id ids _ (λ b w s e. elim (Option-cases (codec.to_bytes object)) [
        | inl q ↦ rw q s
        | inr (bs, q) ↦ elim (Bool-cases (leb (length bs + start) block_size)) [
          | inl fits ↦
              let size : length (splice start bs b.bytes) ≡ block_size =
                length-splice start bs b.bytes
                  (omega (arith, (s.coherent.entries id b e).size, leb→le _ _ fits))
                ∙ (s.coherent.entries id b e).size in
              rw q (
                rw fits (
                  ((write_blocks_loop-Within codec args ids).run _).keep
                    (put-IsSound w id b (splice start bs b.bytes) s e size)))
          | inr long ↦ rw q (rw long s)
        ]
      ])

  pub writes-Within :
      {T : Type 0} (codec : Codec T) (args : List (T × ℕ × ℕ))
      → Within KeepsSound (write_blocks {B = B} codec args)
  unfolding write_blocks
  writes-Within codec args =
      search (frame_rules, KeepsSound-IsFrame, reads-Within, write_blocks_loop-Within codec) depth 8

  -- `sync_and_clear_cache` of a sound world.
  pub syncs-Within : Within KeepsSound (sync_and_clear_cache {B = B})
  syncs-Within = record {
    run = λ w. record {
      keep = λ s.
          let d = sync_and_clear_cache-IsSynced w s.coherent in
          record { coherent = d.coherent; ready = rw (d.bitmaps) s.ready };
    };
  }

module _ {B : Type 0} (ext : External B) where
  write_bitmaps_loop-Within :
      (rest ids : List ℕ) (start : ℕ) (bitmap : List B)
      → Within KeepsSound (write_bitmaps_loop ext rest ids start bitmap)
  unfolding write_bitmaps_loop Follows
  write_bitmaps_loop-Within [] ids start bitmap = Within-pure KeepsSound-IsFrame tt
  write_bitmaps_loop-Within (id ∷ rest) ids start bitmap =
      elim (Bool-cases (leb ((id - start + 1) * block_size) (length bitmap))) [
        | inl long ↦
            let part = take block_size (drop ((id - start) * block_size) bitmap) in
            let size : length (map (ext.bits.into_value) part) ≡ block_size =
              length-map part (ext.bits.into_value)
              ∙ omega (
                arith,
                leb→le _ _ long,
                length-take block_size (drop ((id - start) * block_size) bitmap),
                length-drop ((id - start) * block_size) bitmap,
              ) in
            rw long (
              get_block_mut-then id ids _ (λ b w s e.
                ((write_bitmaps_loop-Within rest ids start bitmap).run _).keep
                  (put-IsSound w id b _ s e size)))
        | inr short ↦ rw short (record { run = λ w. KeepsSound-IsFrame.refl_lem w })
      ]

  pub saves-Within : Within KeepsSound (cache_to_block ext)
  unfolding cache_to_block
  saves-Within =
      search (frame_rules, KeepsSound-IsFrame, reads-Within, write_bitmaps_loop-Within) depth 9
