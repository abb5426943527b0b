-- ===== src/Frame/Sound/Start.antt =====
-- The start of the server, simdisk/src/main.rs and simple_fs.rs: it makes the invariant of the state.
use simple_fs_rust.Base.{
  ◌+◌, if◌then◌else◌, map, Bool-cases, Bytes, ℕ, List, Option, ◌≡◌, [], none, some, refl, inl, inr,
}
use mathlib.Core.Path.{subst}
use simple_fs_rust.State.{
  pure, is_ok, lift, attempted, gets, and_then, IsBitmap8, SimpleFileSystem, unwrapped, External, M,
  Outcome, World, ◌>>=◌, ok, err, panic, diverge,
}
use simple_fs_rust.Bitmap.{range_from, read_bitmaps}
use simple_fs_rust.Cache.{
  collect, after_pass, get_blocks_buffers_loop, with_cache, get_blocks_buffers,
  read_blocks_to_cache,
}
use simple_fs_rust.Cache.Buffers.{Coherent}
use simple_fs_rust.Constants.{inode_bitmap_start_block, data_bitmap_num, inode_bitmap_num}
use simple_fs_rust.Frame.{frame_rules, Within}
use simple_fs_rust.Frame.Reading.{get_block_buffer-Within, read_inode-Within, IsReadFrame}
use simple_fs_rust.Frame.Sound.{KeepsSound, IsSound}
use simple_fs_rust.Frame.Sound.Commands.{fill_rest-Within, empty_disk-IsCoherent}
use simple_fs_rust.Frame.Sound.Reading.{
  collect-Blocks, read_manager-BothReady, install, bitmap_args, Blocks,
}
use simple_fs_rust.Frame.Store.{read_blocks_loop-Keeps}
use simple_fs_rust.SimpleFs.{
  empty_disk, create_fs_file, set_sfs, start, force_clear, init_sfs, read_sfs,
}
use simple_fs_rust.SuperBlock.{valid, read_super_block}
use simple_fs_rust.User.{read_users}

-- Where the call returns, it leaves a sound world.
abbrev pub EndsSound : {B A : Type 0} → Outcome A × World B → Type 0
EndsSound (ok a, w) = IsSound w
EndsSound (err e, w) = Unit
EndsSound (panic, w) = Unit
EndsSound (diverge, w) = Unit

module _ {B : Type 0} where
  record KeepsCoherent (w w' : World B) : Type 0 where
    keep : Coherent w → Coherent w'

  coherent_reads : (ids : List ℕ) → Within KeepsCoherent (read_blocks_to_cache {B = B} ids)
  unfolding read_blocks_to_cache
  coherent_reads ids = record {
    run = λ w. record {
      keep = λ h. (read_blocks_loop-Keeps ids w.disk w.manager.block_cache h).coherent;
    };
  }

  KeepsCoherent-IsReadFrame : IsReadFrame KeepsCoherent
  KeepsCoherent-IsReadFrame = record {
    frame = record {
      refl_lem = λ w. record { keep = λ h. h };
      trans_lem = λ u v w h k. record { keep = λ c. k.keep (h.keep c) };
    };
    reads = coherent_reads;
  }

  sound_end : {A : Type 0} (p : Outcome A × World B) → IsSound p.1 → EndsSound p
  sound_end (ok a, w) s = s
  sound_end (err e, w) s = tt
  sound_end (panic, w) s = tt
  sound_end (diverge, w) s = tt

  EndsSound-unwrapped :
      {A : Type 0} (p : Outcome A × World B) → EndsSound p → EndsSound (unwrapped p)
  EndsSound-unwrapped (ok a, w) h = h
  EndsSound-unwrapped (err e, w) h = tt
  EndsSound-unwrapped (panic, w) h = tt
  EndsSound-unwrapped (diverge, w) h = tt

  EndsSound-then :
      {A C : Type 0} (p : Outcome A × World B) (f : A → M B C)
      → ((a : A) (v : World B) → p ≡ (ok a, v) → EndsSound (f a v))
      → EndsSound (and_then p f)
  EndsSound-then (ok a, v) f h = h a v refl
  EndsSound-then (err e, v) f h = tt
  EndsSound-then (panic, v) f h = tt
  EndsSound-then (diverge, v) f h = tt

  EndsSound-kept :
      {A C : Type 0} (p : Outcome A × World B) (f : A → M B C)
      → EndsSound p
      → ((a : A) → Within KeepsSound (f a))
      → EndsSound (and_then p f)
  EndsSound-kept (ok a, v) f h k = sound_end (f a v) (((k a).run v).keep h)
  EndsSound-kept (err e, v) f h k = tt
  EndsSound-kept (panic, v) f h k = tt
  EndsSound-kept (diverge, v) f h k = tt

  Coherent-after :
      {A : Type 0} (m : M B A) (w v : World B) (a : A)
      → Within KeepsCoherent m
      → Coherent w
      → m w ≡ (ok a, v)
      → Coherent v
  Coherent-after m w v a k h e = subst (λ p. Coherent p.1) e ((k.run w).keep h)

module _ {B : Type 0} (ext : External B) where
  after_collect :
      (o : Outcome (Option (List Bytes))) (w : World B)
      → Blocks (inode_bitmap_num + data_bitmap_num) o
      → Coherent w
      → EndsSound (and_then (after_pass (lift diverge) o w) (install ext))
  after_collect (ok none) w h c = tt
  after_collect (ok (some bufs)) w h c = record {
    coherent = c;
    ready = read_manager-BothReady ext bufs h.0 h.1;
  }
  after_collect (err e) w h c = tt
  after_collect panic w h c = tt
  after_collect diverge w h c = tt

  after_read :
      (p : Outcome (Unit {0}) × World B)
      → Coherent p.1
      → EndsSound (
          and_then
            (and_then p (λ _. gets (λ v. v.manager.block_cache) >>= λ c.
              after_pass (lift diverge) (collect (bitmap_args ext) c)))
            (install ext))
  after_read (ok _, w) c =
      after_collect (collect (bitmap_args ext) w.manager.block_cache) w
        (collect-Blocks (range_from inode_bitmap_start_block (inode_bitmap_num + data_bitmap_num))
          w.manager.block_cache w.disk c)
        c
  after_read (err e, w) c = tt
  after_read (panic, w) c = tt
  after_read (diverge, w) c = tt

  read_bitmaps-EndsSound : (w : World B) → Coherent w → EndsSound (read_bitmaps ext w)
  unfolding read_bitmaps get_blocks_buffers get_blocks_buffers_loop
  read_bitmaps-EndsSound w h =
      let ids = map (λ a. a.0) (bitmap_args ext) in
      after_read (read_blocks_to_cache ids w) (((coherent_reads ids).run w).keep h)

  super_block_reads : Within KeepsCoherent (read_super_block ext)
  unfolding read_super_block
  super_block_reads =
      search
        (
          frame_rules,
          KeepsCoherent-IsReadFrame.frame,
          get_block_buffer-Within KeepsCoherent-IsReadFrame,
        )
        depth 8

  users_reads : Within KeepsCoherent (read_users ext)
  unfolding read_users
  users_reads =
      search
        (
          frame_rules,
          KeepsCoherent-IsReadFrame.frame,
          get_block_buffer-Within KeepsCoherent-IsReadFrame,
        )
        depth 8

  set_sfs-KeepsCoherent : (sfs : SimpleFileSystem) → Within KeepsCoherent (set_sfs ext sfs)
  set_sfs-KeepsCoherent sfs = record { run = λ w. record { keep = λ h. h } }

  sfs_reads : Within KeepsCoherent (read_sfs ext)
  unfolding read_sfs
  sfs_reads =
      search
        (
          frame_rules,
          KeepsCoherent-IsReadFrame.frame,
          read_inode-Within KeepsCoherent-IsReadFrame ext,
          users_reads,
          set_sfs-KeepsCoherent,
        )
        depth 10

  init_sfs-EndsSound : (w : World B) → Coherent w → EndsSound (init_sfs ext w)
  unfolding init_sfs
  init_sfs-EndsSound w h = EndsSound-then (read_super_block ext w) _ (λ sp v e.
      let c = Coherent-after (read_super_block ext) w v sp super_block_reads h e in
      elim (Bool-cases (valid sp)) [
        | inl good ↦ rw good (
            EndsSound-then (read_sfs ext v) _ (λ t u e'.
              EndsSound-unwrapped (read_bitmaps ext u)
                (read_bitmaps-EndsSound u (Coherent-after (read_sfs ext) v u t sfs_reads c e'))))
        | inr broken ↦ rw broken tt
      ])

  start_after :
      (p : Outcome (Unit {0}) × World B)
      → EndsSound p
      → ((w : World B) → EndsSound (force_clear ext w))
      → EndsSound (and_then (attempted p) (λ r. if is_ok r then pure tt else force_clear ext))
  start_after (ok t, w) h k = h
  start_after (err e, w) h k = k w
  start_after (panic, w) h k = tt
  start_after (diverge, w) h k = tt

  module _ (laws : IsBitmap8 (ext.bits)) where
    force_clear-EndsSound : (w : World B) → EndsSound (force_clear ext w)
    unfolding force_clear create_fs_file
    force_clear-EndsSound w =
        let w' = with_cache (record w { disk = some empty_disk }) [] in
        EndsSound-kept (unwrapped (read_bitmaps ext w')) _
          (EndsSound-unwrapped (read_bitmaps ext w')
            (read_bitmaps-EndsSound w' empty_disk-IsCoherent))
          (λ t. fill_rest-Within ext laws)

    -- The start of the server makes its state sound: in a world whose cache agrees with the host's file,
    -- whatever its bitmaps are, where reading the file system or the formatting after a failure returns, the
    -- cache agrees with the file and both bitmaps can be searched; and a formatting that returns leaves a
    -- sound world whatever the world was before.
    pub start-EndsSound :
        (w : World B)
        → Coherent w
        → EndsSound (start ext w) × ((v : World B) → EndsSound (force_clear ext v))
    unfolding start
    start-EndsSound w h = (
      start_after (init_sfs ext w) (init_sfs-EndsSound w h) force_clear-EndsSound,
      force_clear-EndsSound,
    )
