-- ===== src/SimpleFs/Restart.antt =====
-- simdisk/src/simple_fs.rs: after `sync_all_block_cache` the file has all that a new process reads.
use simple_fs_rust.Base.{ℕ, ◌*◌, ◌≤◌, ◌<◌, ◌≡◌, ◌≢◌, ◌∙◌, refl, ap, sym, [], length, none}
use mathlib.Core.Path.{subst}
use simple_fs_rust.Bitmap.{cache_to_block, read_bitmaps}
use simple_fs_rust.Bitmap.RoundTrip.{saved, cache_to_block-Saves, cache_to_block-read_bitmaps}
use simple_fs_rust.Cache.{BlockCache, read_blocks_to_cache, sync_and_clear_cache, with_cache}
use simple_fs_rust.Cache.Buffers.{store, Coherent}
use simple_fs_rust.Cache.Sync.{sync_and_clear_cache-IsSynced}
use simple_fs_rust.Cache.View.{view, disk_read, IsCoherent}
use simple_fs_rust.Constants.{
  block_size, inode_bitmap_start_block, inode_bitmap_num, data_bitmap_num, inode_start_block,
}
use simple_fs_rust.Frame.{frame_rules, Within, Within->>=}
use simple_fs_rust.Frame.Reading.{IsReadFrame, read_inode-Within}
use simple_fs_rust.Inode.{read_inode}
use simple_fs_rust.SimpleFs.{sync_all_block_cache, update_sfs, set_root}
use simple_fs_rust.State.{External, IsBitmap8, Outcome, World, ok, and_then, unwrap}

module _ {B : Type 0} where
  -- A call that leaves the host's file.
  record SameDisk (w w' : World B) : Type 0 where
    disk_lem : w'.disk ≡ w.disk

  SameDisk-IsReadFrame : IsReadFrame SameDisk
  unfolding read_blocks_to_cache
  SameDisk-IsReadFrame = record {
    frame = record {
      refl_lem = λ w. record { disk_lem = refl };
      trans_lem = λ u v w h k. record { disk_lem = k.disk_lem ∙ h.disk_lem };
    };
    reads = λ ids. record { run = λ w. record { disk_lem = refl } };
  }

  -- A world with an empty cache sees what is in its file.
  empty-IsCoherent :
      (w v : World B)
      → Coherent w
      → w.manager.block_cache ≡ []
      → v.manager.block_cache ≡ []
      → v.disk ≡ w.disk
      → Coherent v
  empty-IsCoherent w v h empty fresh same =
      subst (λ (c : BlockCache). IsCoherent c v.disk) (sym fresh)
        (subst (IsCoherent []) (sym same) (subst (λ (c : BlockCache). IsCoherent c w.disk) empty h))

  fresh_store :
      (v : World B) → v.manager.block_cache ≡ [] → (j : ℕ) → store v j ≡ disk_read j v.disk
  fresh_store v fresh j = ap (λ (c : BlockCache). view c v.disk j) fresh

module _ {B : Type 0} (ext : External B) where
  update_sfs-SameDisk : Within SameDisk (update_sfs ext)
  unfolding update_sfs
  update_sfs-SameDisk =
      Within->>= SameDisk-IsReadFrame.frame (unwrap (read_inode ext 0)) (λ root. set_root ext root)
        (search
          (frame_rules, SameDisk-IsReadFrame.frame, read_inode-Within SameDisk-IsReadFrame ext))
        (λ root. record { run = λ w. record { disk_lem = refl } })

  sync_all_runs :
      (w u v : World B)
      → cache_to_block ext w ≡ (ok tt, u)
      → sync_and_clear_cache u ≡ (ok tt, v)
      → sync_all_block_cache ext w ≡ update_sfs ext v
  unfolding sync_all_block_cache
  sync_all_runs w u v e f = rw (e, and_then) (rw (f, and_then) refl)

  -- In a coherent world with bitmaps of the sizes of the disk and their blocks in the store, after
  -- `sync_all_block_cache`, however it ends, the host's file holds the bytes of both bitmaps in their
  -- blocks and every other block as the calls saw it; a new process, which has this file and an
  -- empty cache, reads both bitmaps as they were.
  pub sync_all_block_cache-read_bitmaps :
      IsBitmap8 (ext.bits)
      → (w v : World B) → Coherent w
      → length w.bitmaps.inodes ≡ inode_bitmap_num * block_size
      → length w.bitmaps.datas ≡ data_bitmap_num * block_size
      → ((k : ℕ) → inode_bitmap_start_block ≤ k → k < inode_start_block → store w k ≢ none)
      → v.manager.block_cache ≡ []
      → v.disk ≡ (sync_all_block_cache ext w).1.disk
      → ((j : ℕ) → disk_read j (sync_all_block_cache ext w).1.disk ≡ saved ext w j)
        × ((read_bitmaps ext v).0 ≡ ok tt)
        × ((read_bitmaps ext v).1.bitmaps.inodes ≡ w.bitmaps.inodes)
        × ((read_bitmaps ext v).1.bitmaps.datas ≡ w.bitmaps.datas)
  sync_all_block_cache-read_bitmaps laws w v h hi hd there fresh disk =
      let (c, e, coherent, new) = cache_to_block-Saves ext w h hi hd there in
      let u = with_cache w c in
      let synced = sync_and_clear_cache-IsSynced u coherent in
      let z = (sync_and_clear_cache u).1 in
      let all : sync_all_block_cache ext w ≡ update_sfs ext z =
        sync_all_runs w u z e (ap (λ (r : Outcome (Unit {0})). (r, z)) synced.done) in
      let kept : (sync_all_block_cache ext w).1.disk ≡ z.disk =
        ap (λ (p : Outcome (Unit {0}) × World B). p.1.disk) all
        ∙ (update_sfs-SameDisk.run z).disk_lem in
      let file : (j : ℕ) → disk_read j (sync_all_block_cache ext w).1.disk ≡ store u j =
        λ j. ap (disk_read j) kept ∙ synced.on_disk j in
      let (written, done, inodes_lem, datas_lem) =
        cache_to_block-read_bitmaps ext laws w v h hi hd there
          (empty-IsCoherent z v synced.coherent synced.empty fresh (disk ∙ kept))
          (λ j.
            fresh_store v fresh j
            ∙ ap (disk_read j) disk
            ∙ file j
            ∙ sym (ap (λ (p : Outcome (Unit {0}) × World B). store p.1 j) e)) in
      (λ j. file j ∙ new j, done, inodes_lem, datas_lem)
