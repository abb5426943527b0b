-- ===== src/Bitmap/RoundTrip.antt =====
-- simdisk/src/bitmap.rs: the bitmaps that `cache_to_block` writes are those that `read` reads.
use simple_fs_rust.Base.{
  ltb, ℕ, ◌+◌, ◌*◌, ◌-◌, ◌≤◌, ◌<◌, ◌≡◌, ◌∙◌, refl, ap, sym, List, [], ◌∷◌, ◌++◌, map, none, some,
  Option, ◌≢◌, length, take_all, arith, Bytes, Bool-cases, inl, inr, if◌then◌else◌,
}
use simple_fs_rust.State.{BitOps, External, IsBitmap8, Outcome, World, ok, and_then}
use simple_fs_rust.Bitmap.{cache_to_block, read_bitmaps, range_from, concat}
use simple_fs_rust.Bitmap.Pages.{page, length-page, concat-page, from_page}
use simple_fs_rust.Bitmap.Persist.{
  among_inside, All-range_from, among_before, paged, write_bitmaps_loop-Pages,
}
use simple_fs_rust.Cache.{BlockCache, with_cache}
use simple_fs_rust.Cache.Buffers.{store, Coherent, range_of, IsRange, get_blocks_buffers-Reads}
use simple_fs_rust.Cache.Clear.{among}
use simple_fs_rust.Cache.Read.{All, All-map, read_blocks_to_cache-Loaded}
use simple_fs_rust.Constants.{
  block_size, inode_bitmap_start_block, data_bitmap_start_block, inode_bitmap_num, data_bitmap_num,
  inode_start_block,
}

abbrev inode_ids : List ℕ
inode_ids = range_from inode_bitmap_start_block inode_bitmap_num

abbrev data_ids : List ℕ
data_ids = range_from data_bitmap_start_block data_bitmap_num

abbrev whole_args : List ℕ → List (ℕ × ℕ × ℕ)
whole_args ids = map (λ id. (id, 0, block_size)) ids

module _ {B : Type 0} (ext : External B) where
  -- The store that `cache_to_block` leaves.
  abbrev pub saved : World B → ℕ → Option Bytes
  saved w =
      paged ext (paged ext (store w) inode_bitmap_start_block w.bitmaps.inodes inode_ids)
        data_bitmap_start_block w.bitmaps.datas data_ids

  pub cache_to_block-Saves :
      (w : World B)
      → Coherent w
      → length w.bitmaps.inodes ≡ inode_bitmap_num * block_size
      → length w.bitmaps.datas ≡ data_bitmap_num * block_size
      → ((k : ℕ) → inode_bitmap_start_block ≤ k → k < inode_start_block → store w k ≢ none)
      → (c : BlockCache) × (cache_to_block ext w ≡ (ok tt, with_cache w c))
        × Coherent (with_cache w c)
        × ((j : ℕ) → store (with_cache w c) j ≡ saved w j)
  unfolding cache_to_block
  cache_to_block-Saves w h hi hd there =
      let (c, e, k, cached) = read_blocks_to_cache-Loaded (inode_ids ++ data_ids) w h (
        All-range_from (λ id. store w id ≢ none) 1 13
          (λ i low high. there i (omega arith) (omega arith))) in
      let (c1, e1, h1, new1, still1) =
        write_bitmaps_loop-Pages ext inode_ids inode_ids inode_bitmap_start_block w.bitmaps.inodes
          (with_cache w c) k.coherent
          (All-range_from (λ id. (id - 1 + 1) * block_size ≤ length w.bitmaps.inodes) 1 1
            (λ i low high. omega arith))
          (cached.0, tt) in
      let (c2, e2, h2, new2, still2) =
        write_bitmaps_loop-Pages ext data_ids data_ids data_bitmap_start_block w.bitmaps.datas
          (with_cache w c1) h1
          (All-range_from (λ id. (id - 2 + 1) * block_size ≤ length w.bitmaps.datas) 2 12
            (λ i low high. omega arith))
          (All-map still1 data_ids cached.1) in
      (
        c2,
        rw (e, and_then) (rw (e1, and_then) e2),
        h2,
        λ j.
            new2 j
            ∙ ap
                (λ o.
                  if among j data_ids
                  then some (page ext.bits w.bitmaps.datas (j - data_bitmap_start_block))
                  else o)
                (new1 j
                  ∙ ap
                      (λ o.
                        if among j inode_ids
                        then some (page ext.bits w.bitmaps.inodes (j - inode_bitmap_start_block))
                        else o)
                      (k.same_view j)),
      )

module _ {B : Type 0} (bits : BitOps B) where
  -- The blocks `ids` hold the bitmap that starts at block `start`.
  Holds : (ℕ → Option Bytes) → ℕ → List B → ℕ → Type 0
  Holds v start bitmap id =
      (v id ≡ some (page bits bitmap (id - start)))
      × ((id - start + 1) * block_size ≤ length bitmap)

  buffers_of :
      (v : ℕ → Option Bytes) (start : ℕ) (bitmap : List B) (ids : List ℕ)
      → All (Holds v start bitmap) ids
      → map (range_of v) (whole_args ids) ≡ map (λ id. page bits bitmap (id - start)) ids
  unfolding Holds
  buffers_of v start bitmap [] h = refl
  buffers_of v start bitmap (id ∷ ids) h =
      let bs = page bits bitmap (id - start) in
      let size = length-page bits bitmap (id - start) h.0.1 in
      rw (h.0.0, take_all block_size bs (omega (arith, size)), buffers_of v start bitmap ids h.1)
        refl

  bitmap_read :
      IsBitmap8 bits
      → (v : ℕ → Option Bytes) (start n : ℕ) (bitmap : List B) → length bitmap ≡ n * block_size
      → All (Holds v start bitmap) (range_from start n)
      → map bits.from_value (concat (map (range_of v) (whole_args (range_from start n)))) ≡ bitmap
  bitmap_read laws v start n bitmap size h =
      ap (λ bufs. map bits.from_value (concat bufs))
        (buffers_of v start bitmap (range_from start n) h)
      ∙ ap (map bits.from_value) (
          concat-page bits n 0 start start bitmap (omega arith)
          ∙ ap (map bits.into_value) (take_all (n * block_size) bitmap (omega (arith, size))))
      ∙ from_page bits laws bitmap

module _ {B : Type 0} (ext : External B) where
  read_bitmaps-value :
      IsBitmap8 (ext.bits)
      → (v : World B) (inodes datas : List B) → Coherent v
      → length inodes ≡ inode_bitmap_num * block_size
      → length datas ≡ data_bitmap_num * block_size
      → All (Holds ext.bits (store v) inode_bitmap_start_block inodes) inode_ids
      → All (Holds ext.bits (store v) data_bitmap_start_block datas) data_ids
      → All (λ id. store v id ≢ none) (range_from 1 13)
      → ((read_bitmaps ext v).0 ≡ ok tt)
        × ((read_bitmaps ext v).1.bitmaps.inodes ≡ inodes)
        × ((read_bitmaps ext v).1.bitmaps.datas ≡ datas)
  unfolding read_bitmaps
  read_bitmaps-value laws v inodes datas h hi hd ki kd there =
      let (c, e, k) =
        get_blocks_buffers-Reads (whole_args (range_from 1 13)) v h
          (whole_IsRange (store v) (range_from 1 13) there) in
      (
        rw (e, and_then) refl,
        rw (e, and_then)
            (bitmap_read ext.bits laws (store v) inode_bitmap_start_block inode_bitmap_num inodes hi
              ki),
        rw (e, and_then)
            (bitmap_read ext.bits laws (store v) data_bitmap_start_block data_bitmap_num datas hd
              kd),
      )
    where
      whole_IsRange :
          (f : ℕ → Option Bytes) (ids : List ℕ)
          → All (λ id. f id ≢ none) ids
          → All (IsRange f) (whole_args ids)
      whole_IsRange f [] a = tt
      whole_IsRange f (id ∷ ids) a = ((a.0, omega arith, omega arith), whole_IsRange f ids a.1)

  a_page :
      (v : ℕ → Option Bytes) (j : ℕ) (a b : Bytes)
      → (j < 2 → v j ≡ some a)
      → (2 ≤ j → v j ≡ some b)
      → v j ≢ none
  a_page v j a b low high q = elim (Bool-cases (ltb j 2)) [
    | inl less ↦ let e = sym (low (ground arith)) ∙ q in cc e
    | inr more ↦ let e = sym (high (ground arith)) ∙ q in cc e
  ]

  -- In a coherent world with bitmaps of the sizes of the disk and their blocks in the store, `cache_to_block`
  -- succeeds and changes nothing but the cache, which stays coherent; and the `read` that follows in
  -- any coherent world with the same store, as it is after the cache was written to the file or in a
  -- new process, succeeds and gives back both bitmaps, byte by byte.
  pub cache_to_block-read_bitmaps :
      IsBitmap8 (ext.bits)
      → (w v : World B) → Coherent w
      → length w.bitmaps.inodes ≡ inode_bitmap_num * block_size
      → length w.bitmaps.datas ≡ data_bitmap_num * block_size
      → ((k : ℕ) → inode_bitmap_start_block ≤ k → k < inode_start_block → store w k ≢ none)
      → Coherent v
      → ((j : ℕ) → store v j ≡ store (cache_to_block ext w).1 j)
      → ((c : BlockCache) × (cache_to_block ext w ≡ (ok tt, with_cache w c))
          × Coherent (with_cache w c))
        × ((read_bitmaps ext v).0 ≡ ok tt)
        × ((read_bitmaps ext v).1.bitmaps.inodes ≡ w.bitmaps.inodes)
        × ((read_bitmaps ext v).1.bitmaps.datas ≡ w.bitmaps.datas)
  unfolding Holds
  cache_to_block-read_bitmaps laws w v h hi hd there hv same =
      let (c, e, coherent, new) = cache_to_block-Saves ext w h hi hd there in
      let found : (j : ℕ) → store v j ≡ saved ext w j =
        λ j. same j ∙ ap (λ (p : Outcome (Unit {0}) × World B). store p.1 j) e ∙ new j in
      let inode_block : (j : ℕ)
          → 1 ≤ j
          → j < 2
          → store v j ≡ some (page ext.bits w.bitmaps.inodes (j - 1)) =
        λ j low high. found j ∙ rw (among_before j 2 12 high, among_inside j 1 1 low high) refl in
      let data_block : (j : ℕ)
          → 2 ≤ j
          → j < 14
          → store v j ≡ some (page ext.bits w.bitmaps.datas (j - 2)) =
        λ j low high. found j ∙ rw (among_inside j 2 12 low high) refl in
      let (done, inodes_lem, datas_lem) =
        read_bitmaps-value laws v w.bitmaps.inodes w.bitmaps.datas hv hi hd
          (All-range_from (Holds ext.bits (store v) 1 w.bitmaps.inodes) 1 1
            (λ j low high. (inode_block j low high, omega arith)))
          (All-range_from (Holds ext.bits (store v) 2 w.bitmaps.datas) 2 12
            (λ j low high. (data_block j low high, omega arith)))
          (All-range_from (λ id. store v id ≢ none) 1 13
            (λ j low high.
              a_page (store v) j (page ext.bits w.bitmaps.inodes (j - 1))
                (page ext.bits w.bitmaps.datas (j - 2)) (inode_block j low)
                (λ more. data_block j more (omega arith)))) in
      ((c, e, coherent), done, inodes_lem, datas_lem)
