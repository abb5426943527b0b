-- ===== src/Tests/Bitmaps.antt =====
-- The two bitmaps, at one and two bytes.
use simple_fs_rust.Base.{
  none, sym, ◌≢◌, ◌<◌, ◌≤◌, length-replicate, length, replicate, ℕ, arith, ◌+◌, ◌≡◌, refl, [], ◌∷◌,
  true, false,
}
use mathlib.Core.Path.{subst}
use simple_fs_rust.State.{CacheMethod, Outcome, World, count_below, ok, BitmapType, BitmapManager}
use simple_fs_rust.Bitmap.{
  read_bitmaps, cache_to_block, count_data_blocks, count_inodes, bitmap_of, alloc_loop,
  alloc_bit_in, count_bits, dealloc_bit_in,
}
use simple_fs_rust.Bitmap.Count.{
  count_inodes-count_data_blocks, count_bits-alloc_bit_in, count_bits-dealloc_bit_in,
}
use simple_fs_rust.Bitmap.Manager.{
  dealloc_bit_in-Writes, dealloc_bit_in-alloc_bit_in, Writes, manager_bit, alloc_bit_in-Allocs,
  Allocs, IsReady,
}
use simple_fs_rust.Bitmap.RoundTrip.{saved, cache_to_block-read_bitmaps, cache_to_block-Saves}
use simple_fs_rust.Cache.{with_cache, BlockCache}
use simple_fs_rust.Cache.Buffers.{store, Coherent}
use simple_fs_rust.Cache.View.{disk_read}
use simple_fs_rust.Constants.{
  inode_start_block, inode_bitmap_start_block, data_block_max_num, inode_max_num,
}
use simple_fs_rust.SimpleFs.{sync_all_block_cache}
use simple_fs_rust.SimpleFs.Restart.{sync_all_block_cache-read_bitmaps}
use simple_fs_rust.Tests.Bits.{read_bits, bit_ops-IsBitmap8, bit_ops, Bits}
use simple_fs_rust.Tests.Blocks.{ext}
use simple_fs_rust.Tests.Worlds.{world, world-Coherent}

abbrev full_byte : Bits 8
full_byte = read_bits 8 255

abbrev half_byte : Bits 8
half_byte = read_bits 8 15

-- The search starts at a full byte and goes on to the next.
abbrev manager : BitmapManager (Bits 8)
manager = record {
  inodes = half_byte ∷ [];
  datas = full_byte ∷ (half_byte ∷ []);
  last_inode_byte_pos = 0;
  last_data_byte_pos = 0;
}

abbrev taken_byte : Bits 8
taken_byte = read_bits 8 31

abbrev after : BitmapManager (Bits 8)
after = record manager { datas = full_byte ∷ (taken_byte ∷ []); last_data_byte_pos = 1 }

manager-IsReady : IsReady BitmapType.data_block manager
manager-IsReady = record { starts_inside = omega arith; ids_fit = omega arith }

alloc_run : alloc_bit_in bit_ops BitmapType.data_block manager ≡ (ok 12, after)
unfolding alloc_bit_in alloc_loop
alloc_run = refl

dealloc_run :
    dealloc_bit_in bit_ops BitmapType.data_block 12 after
    ≡ (ok true, record after { datas = full_byte ∷ (half_byte ∷ []) })
unfolding dealloc_bit_in
dealloc_run = refl

after-IsReady : IsReady BitmapType.data_block after
after-IsReady = record { starts_inside = omega arith; ids_fit = omega arith }

alloc_bit_in-Allocs_example :
    Allocs bit_ops BitmapType.data_block manager
      (alloc_bit_in bit_ops BitmapType.data_block manager)
alloc_bit_in-Allocs_example =
    alloc_bit_in-Allocs bit_ops bit_ops-IsBitmap8 BitmapType.data_block manager manager-IsReady

dealloc_bit_in-Writes_example :
    ((dealloc_bit_in bit_ops BitmapType.data_block 12 after).0
      ≡ ok (manager_bit bit_ops BitmapType.data_block after 12))
    × Writes bit_ops BitmapType.data_block after 12 false
        (dealloc_bit_in bit_ops BitmapType.data_block 12 after).1
dealloc_bit_in-Writes_example =
    dealloc_bit_in-Writes bit_ops bit_ops-IsBitmap8 BitmapType.data_block after 12 after-IsReady
      (omega arith)

dealloc_bit_in-alloc_bit_in_example :
    ((dealloc_bit_in bit_ops BitmapType.data_block 12 after).0 ≡ ok true)
    × ((j : ℕ)
        → manager_bit bit_ops BitmapType.data_block
            (dealloc_bit_in bit_ops BitmapType.data_block 12 after).1
            j
          ≡ manager_bit bit_ops BitmapType.data_block manager j)
    × (bitmap_of BitmapType.inode (dealloc_bit_in bit_ops BitmapType.data_block 12 after).1
        ≡ manager.inodes)
dealloc_bit_in-alloc_bit_in_example =
    dealloc_bit_in-alloc_bit_in bit_ops bit_ops-IsBitmap8 BitmapType.data_block manager 12 after
      manager-IsReady alloc_run

-- Bitmaps of the sizes of the disk.
abbrev disk_bitmaps : BitmapManager (Bits 8)
disk_bitmaps = record manager {
  inodes = replicate 1024 half_byte;
  datas = replicate 12288 full_byte;
}

inodes_length : length disk_bitmaps.inodes ≡ 1024
inodes_length = length-replicate 1024 half_byte

datas_length : length disk_bitmaps.datas ≡ 12288
datas_length = length-replicate 12288 full_byte

count_inodes-count_data_blocks_example :
    ((count_inodes bit_ops disk_bitmaps).0
      ≡ count_below inode_max_num (manager_bit bit_ops BitmapType.inode disk_bitmaps))
    × ((count_inodes bit_ops disk_bitmaps).0 + (count_inodes bit_ops disk_bitmaps).1
        ≡ inode_max_num)
    × ((count_data_blocks bit_ops disk_bitmaps).0
        ≡ count_below data_block_max_num (manager_bit bit_ops BitmapType.data_block disk_bitmaps))
    × ((count_data_blocks bit_ops disk_bitmaps).0 + (count_data_blocks bit_ops disk_bitmaps).1
        ≡ data_block_max_num)
count_inodes-count_data_blocks_example =
    count_inodes-count_data_blocks bit_ops bit_ops-IsBitmap8 disk_bitmaps
      (omega (arith, inodes_length)) (omega (arith, datas_length))

count_bits-alloc_bit_in_example :
    (count_bits bit_ops BitmapType.data_block after
      ≡ count_bits bit_ops BitmapType.data_block manager + 1)
    × (count_bits bit_ops BitmapType.inode after ≡ count_bits bit_ops BitmapType.inode manager)
count_bits-alloc_bit_in_example =
    count_bits-alloc_bit_in bit_ops bit_ops-IsBitmap8 BitmapType.data_block manager 12 after
      manager-IsReady alloc_run

count_bits-dealloc_bit_in_example :
    (count_bits bit_ops BitmapType.data_block
          (record after { datas = full_byte ∷ (half_byte ∷ []) })
        + 1
      ≡ count_bits bit_ops BitmapType.data_block after)
    × (count_bits bit_ops BitmapType.inode (record after { datas = full_byte ∷ (half_byte ∷ []) })
        ≡ count_bits bit_ops BitmapType.inode after)
count_bits-dealloc_bit_in_example =
    count_bits-dealloc_bit_in bit_ops bit_ops-IsBitmap8 BitmapType.data_block after 12 true
      (record after { datas = full_byte ∷ (half_byte ∷ []) }) after-IsReady (omega arith)
      dealloc_run

-- A world with them, and the one after they were written to the cache.
abbrev full_world : World (Bits 8)
full_world = record world { bitmaps = disk_bitmaps }

abbrev saved_world : World (Bits 8)
saved_world = (cache_to_block ext full_world).1

blocks_stored :
    (k : ℕ) → inode_bitmap_start_block ≤ k → k < inode_start_block → store full_world k ≢ none
blocks_stored k low high = λ p. ground arith

saved_world-Coherent : Coherent saved_world
saved_world-Coherent =
    let (c, e, coherent, new) =
      cache_to_block-Saves ext full_world world-Coherent (omega (arith, inodes_length))
        (omega (arith, datas_length)) blocks_stored in
    subst (λ (p : Outcome (Unit {0}) × World (Bits 8)). Coherent p.1) (sym e) coherent

cache_to_block-read_bitmaps_example :
    ((c : BlockCache) × (cache_to_block ext full_world ≡ (ok tt, with_cache full_world c))
      × Coherent (with_cache full_world c))
    × ((read_bitmaps ext saved_world).0 ≡ ok tt)
    × ((read_bitmaps ext saved_world).1.bitmaps.inodes ≡ disk_bitmaps.inodes)
    × ((read_bitmaps ext saved_world).1.bitmaps.datas ≡ disk_bitmaps.datas)
cache_to_block-read_bitmaps_example =
    cache_to_block-read_bitmaps ext bit_ops-IsBitmap8 full_world saved_world world-Coherent
      (omega (arith, inodes_length)) (omega (arith, datas_length)) blocks_stored
      saved_world-Coherent (λ j. refl)

-- A new process on the file of that world after everything was written to it.
abbrev restarted : World (Bits 8)
restarted = record world {
  manager = record { block_cache = []; cache_method = CacheMethod.immediately };
  disk = (sync_all_block_cache ext full_world).1.disk;
}

sync_all_block_cache-read_bitmaps_example :
    ((j : ℕ) → disk_read j (sync_all_block_cache ext full_world).1.disk ≡ saved ext full_world j)
    × ((read_bitmaps ext restarted).0 ≡ ok tt)
    × ((read_bitmaps ext restarted).1.bitmaps.inodes ≡ disk_bitmaps.inodes)
    × ((read_bitmaps ext restarted).1.bitmaps.datas ≡ disk_bitmaps.datas)
sync_all_block_cache-read_bitmaps_example =
    sync_all_block_cache-read_bitmaps ext bit_ops-IsBitmap8 full_world restarted world-Coherent
      (omega (arith, inodes_length)) (omega (arith, datas_length)) blocks_stored refl refl
