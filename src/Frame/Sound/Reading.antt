-- ===== src/Frame/Sound/Reading.antt =====
-- `BitmapManager::read` of simdisk/src/bitmap.rs gives bitmaps of their full length.
use simple_fs_rust.Base.{
  length-drop, length-map, length-take, inr, inl, ◌&&◌, Option-cases, leb, length-append, arith,
  slice, ◌+◌, ap, ◌*◌, Option, ◌≡◌, drop, length, map, take, Bytes, List, ℕ, [], ◌∷◌, true, none,
  some, refl, zero, suc,
}
use simple_fs_rust.State.{
  ◌>>=◌, BitmapType, lift, gets, and_then, Disk, World, modify, BitmapManager, Block, M, Outcome,
  External, ok, err, panic, diverge,
}
use simple_fs_rust.Bitmap.{range_from, concat, read_bitmaps}
use simple_fs_rust.Cache.{
  read_blocks_to_cache, after_pass, collect, get_blocks_buffers_loop, get_blocks_buffers, lookup,
  BlockCache,
}
use simple_fs_rust.Cache.Read.{All}
use simple_fs_rust.Cache.View.{IsCoherent}
use simple_fs_rust.Constants.{
  data_bitmap_num, inode_bitmap_start_block, inode_bitmap_num, block_size,
}
use simple_fs_rust.Frame.{Within}
use simple_fs_rust.Frame.Sound.{BothReady, KeepsSound, IsSound}
use simple_fs_rust.Frame.Sound

abbrev pub AllBlocks : List Bytes → Type 0
AllBlocks = All (λ b. length b ≡ block_size)

-- Where the outcome has buffers, they are `n` whole blocks.
abbrev pub Blocks : ℕ → Outcome (Option (List Bytes)) → Type 0
Blocks n (ok (some bufs)) = (length bufs ≡ n) × AllBlocks bufs
Blocks n (ok none) = Unit
Blocks n (err e) = Unit
Blocks n panic = Unit
Blocks n diverge = Unit

abbrev one_more : Bytes → Outcome (Option (List Bytes)) → Outcome (Option (List Bytes))
one_more b (ok (some bufs)) = ok (some (b ∷ bufs))
one_more b (ok none) = ok none
one_more b (err e) = err e
one_more b panic = panic
one_more b diverge = diverge

one_more-Blocks :
    (n : ℕ) (b : Bytes) (o : Outcome (Option (List Bytes)))
    → length b ≡ block_size
    → Blocks n o
    → Blocks (suc n) (one_more b o)
one_more-Blocks n b (ok (some bufs)) size h = (ap suc h.0, (size, h.1))
one_more-Blocks n b (ok none) size h = tt
one_more-Blocks n b (err e) size h = tt
one_more-Blocks n b panic size h = tt
one_more-Blocks n b diverge size h = tt

collect_one :
    (id : ℕ) (b : Block) (args : List (ℕ × ℕ × ℕ)) (c : BlockCache)
    → lookup id c ≡ some b
    → length b.bytes ≡ block_size
    → collect ((id, 0, block_size) ∷ args) c
      ≡ one_more (slice 0 block_size b.bytes) (collect args c)
collect_one id b args c e size =
    let test : (leb 0 block_size && leb block_size (length b.bytes)) ≡ true =
      ground (arith, size) in
    rw (e, collect) (rw test (by_cases (collect args c)))
  where
    by_cases :
        (o : Outcome (Option (List Bytes)))
        → elim o [ ok (some bufs) ↦ ok (some (slice 0 block_size b.bytes ∷ bufs)) | other ↦ other ]
          ≡ one_more (slice 0 block_size b.bytes) o
    by_cases (ok (some bufs)) = refl
    by_cases (ok none) = refl
    by_cases (err x) = refl
    by_cases panic = refl
    by_cases diverge = refl

pub collect-Blocks :
    (ids : List ℕ) (c : BlockCache) (disk : Option Disk)
    → IsCoherent c disk
    → Blocks (length ids) (collect (map (λ id. (id, 0, block_size)) ids) c)
collect-Blocks [] c disk h = (refl, tt)
collect-Blocks (id ∷ ids) c disk h = elim (Option-cases (lookup id c)) [
  | inl e ↦ rw (e, collect) tt
  | inr (b, e) ↦
      let size = (h.entries id b e).size in
      let part : length (slice 0 block_size b.bytes) ≡ block_size =
        omega (arith, length-take block_size b.bytes, size) in
      rw (collect_one id b _ c e size) (
        one_more-Blocks (length ids) (slice 0 block_size b.bytes) _ part
          (collect-Blocks ids c disk h))
]

length-concat : (bs : List Bytes) → AllBlocks bs → length (concat bs) ≡ length bs * block_size
length-concat [] h = refl
length-concat (b ∷ bs) h = omega (arith, length-append b (concat bs), h.0, length-concat bs h.1)

take-AllBlocks : (n : ℕ) (bs : List Bytes) → AllBlocks bs → AllBlocks (take n bs)
take-AllBlocks zero bs h = tt
take-AllBlocks (suc n) [] h = tt
take-AllBlocks (suc n) (b ∷ bs) h = (h.0, take-AllBlocks n bs h.1)

drop-AllBlocks : (n : ℕ) (bs : List Bytes) → AllBlocks bs → AllBlocks (drop n bs)
drop-AllBlocks zero bs h = h
drop-AllBlocks (suc n) [] h = tt
drop-AllBlocks (suc n) (b ∷ bs) h = drop-AllBlocks n bs h.1

module _ {B : Type 0} (ext : External B) where
  abbrev pub read_manager : List Bytes → BitmapManager B
  read_manager buffers = record {
    inodes = map (ext.bits.from_value) (concat (take inode_bitmap_num buffers));
    datas = map (ext.bits.from_value) (concat (drop inode_bitmap_num buffers));
    last_inode_byte_pos = 0;
    last_data_byte_pos = 0;
  }

  pub read_manager-BothReady :
      (buffers : List Bytes)
      → length buffers ≡ inode_bitmap_num + data_bitmap_num
      → AllBlocks buffers
      → BothReady (read_manager buffers)
  read_manager-BothReady buffers n h BitmapType.inode =
      let size : length (read_manager buffers).inodes ≡ 1024 = omega (
        arith,
        length-map (concat (take inode_bitmap_num buffers)) (ext.bits.from_value),
        length-concat (take inode_bitmap_num buffers) (take-AllBlocks inode_bitmap_num buffers h),
        length-take inode_bitmap_num buffers,
      ) in
      record { starts_inside = omega arith; ids_fit = omega arith }
  read_manager-BothReady buffers n h BitmapType.data_block =
      let size : length (read_manager buffers).datas ≡ 12 * 1024 = omega (
        arith,
        length-map (concat (drop inode_bitmap_num buffers)) (ext.bits.from_value),
        length-concat (drop inode_bitmap_num buffers) (drop-AllBlocks inode_bitmap_num buffers h),
        length-drop inode_bitmap_num buffers,
      ) in
      record { starts_inside = omega arith; ids_fit = omega arith }

  abbrev pub install : List Bytes → M B (Unit {0})
  install buffers = modify (λ w. record w { bitmaps = read_manager buffers })

  abbrev pub bitmap_args : List (ℕ × ℕ × ℕ)
  bitmap_args =
      map (λ id. (id, 0, block_size))
        (range_from inode_bitmap_start_block (inode_bitmap_num + data_bitmap_num))

  after_collect :
      (o : Outcome (Option (List Bytes))) (w : World B)
      → Blocks (inode_bitmap_num + data_bitmap_num) o
      → IsSound w
      → IsSound (and_then (after_pass (lift diverge) o w) install).1
  after_collect (ok none) w h s = s
  after_collect (ok (some bufs)) w h s = record {
    coherent = s.coherent;
    ready = read_manager-BothReady bufs h.0 h.1;
  }
  after_collect (err e) w h s = s
  after_collect panic w h s = s
  after_collect diverge w h s = s

  after_read :
      (p : Outcome (Unit {0}) × World B)
      → IsSound p.1
      → IsSound
          (and_then
            (and_then p (λ _. gets (λ v. v.manager.block_cache) >>= λ c.
              after_pass (lift diverge) (collect bitmap_args c)))
            install).1
  after_read (ok _, w) s =
      after_collect (collect bitmap_args w.manager.block_cache) w
        (collect-Blocks (range_from inode_bitmap_start_block (inode_bitmap_num + data_bitmap_num))
          w.manager.block_cache w.disk s.coherent)
        s
  after_read (err e, w) s = s
  after_read (panic, w) s = s
  after_read (diverge, w) s = s

  pub read_bitmaps-Within : Within KeepsSound (read_bitmaps ext)
  unfolding read_bitmaps get_blocks_buffers get_blocks_buffers_loop
  read_bitmaps-Within = record {
    run = λ w. record {
      keep = λ s.
          after_read (read_blocks_to_cache (map (λ a. a.0) bitmap_args) w)
            (((Sound.reads-Within (map (λ a. a.0) bitmap_args)).run w).keep s);
    };
  }
