-- ===== src/Bitmap.antt =====
-- simdisk/src/bitmap.rs: the two bitmaps, kept as bytes of `bitmaps::Bitmap<8>`.
pub mod Bits
pub mod Alloc
pub mod Manager
pub mod Count
pub mod Pages
pub mod Persist
pub mod RoundTrip
use simple_fs_rust.Base.{
  ℕ, zero, suc, ◌+◌, ◌-◌, ◌*◌, ◌/◌, ◌%◌, ◌^◌, ◌==◌, Bool, true, false, none, some, List, [], ◌∷◌,
  ◌++◌, map, leb, if◌then◌else◌, length, get_elem?, set, take, drop,
}
use simple_fs_rust.Constants.{
  block_size, inode_bitmap_num, data_bitmap_num, inode_bitmap_start_block, data_bitmap_start_block,
  data_start_block, inode_max_num, data_block_max_num,
}
use simple_fs_rust.State.{
  BitmapManager, BitmapType, BitOps, External, Error, Outcome, ok, err, panic, diverge, M, pure,
  gets, modify, unwrap, ◌>>=◌, ◌>>◌, assert,
}
use simple_fs_rust.Cache.{
  read_blocks_to_cache, get_blocks_buffers, get_block_mut, put_block, modify_bytes, clear_blocks,
}

module _ {B : Type 0} where
  -- The `match bitmap_type` that begins the operations.
  abbrev pub bitmap_of : BitmapType → BitmapManager B → List B
  bitmap_of BitmapType.inode m = m.inodes
  bitmap_of BitmapType.data_block m = m.datas

  abbrev pub last_byte_pos : BitmapType → BitmapManager B → ℕ
  last_byte_pos BitmapType.inode m = m.last_inode_byte_pos
  last_byte_pos BitmapType.data_block m = m.last_data_byte_pos

  -- What the operations write back through `&mut`.
  abbrev pub put_bitmap : BitmapType → List B → ℕ → BitmapManager B → BitmapManager B
  put_bitmap BitmapType.inode bitmap pos m = record m { inodes = bitmap; last_inode_byte_pos = pos }
  put_bitmap BitmapType.data_block bitmap pos m = record m {
    datas = bitmap;
    last_data_byte_pos = pos;
  }

module _ {B : Type 0} (bits : BitOps B) where
  -- The `loop` of `alloc_bit`, from byte `cur`, with fuel for its rounds: the id of the bit, the
  -- bitmap after `set`, and the byte where it stands.
  unfoldable pub alloc_loop : ℕ → List B → ℕ → ℕ → Outcome (ℕ × List B × ℕ)
  alloc_loop zero bitmap prev cur = diverge
  alloc_loop (suc fuel) bitmap prev cur =
      let next = (cur + 1) % length bitmap in
      let rest = alloc_loop fuel bitmap prev next in
      elim (get_elem? bitmap cur) [
        | none ↦ panic
        | some byte ↦ elim (bits.first_false_index byte) [
          | some bit_pos ↦
              ok (cur * 8 + bit_pos, set bitmap cur (bits.set byte bit_pos true).0, cur)
          | none ↦ if next == prev then err Error.no_valid_bit else rest
        ]
      ]

  -- `BitmapManager::alloc_bit`; one round for each byte and one more is enough, also for the panic of an
  -- empty bitmap.
  unfoldable pub alloc_bit_in : BitmapType → BitmapManager B → Outcome ℕ × BitmapManager B
  alloc_bit_in ty m =
      elim (alloc_loop (suc (length (bitmap_of ty m))) (bitmap_of ty m) (last_byte_pos ty m)
        (last_byte_pos ty m)) [
          | ok (id, bitmap, pos) ↦ (ok (id % 2 ^ 32), put_bitmap ty bitmap pos m)
          | err e ↦ (err e, m)
          | panic ↦ (panic, m)
          | diverge ↦ (diverge, m)
        ]

  -- `BitmapManager::dealloc_bit`: whether the bit was set; an index out of range panics.
  unfoldable pub dealloc_bit_in : BitmapType → ℕ → BitmapManager B → Outcome Bool × BitmapManager B
  dealloc_bit_in ty bit_id m = elim (get_elem? (bitmap_of ty m) (bit_id / 8)) [
    | none ↦ (panic, m)
    | some byte ↦
        let (byte', old) = bits.set byte (bit_id % 8) false in
        (ok old, put_bitmap ty (set (bitmap_of ty m) (bit_id / 8) byte') (last_byte_pos ty m) m)
  ]

  -- The `sum` of `count_bits`.
  unfoldable pub sum_len : List B → ℕ
  sum_len [] = 0
  sum_len (b ∷ bs) = bits.len b + sum_len bs

  unfoldable pub count_bits : BitmapType → BitmapManager B → ℕ
  count_bits ty m = sum_len (bitmap_of ty m)

  unfoldable pub count_inodes : BitmapManager B → ℕ × ℕ
  count_inodes m = (count_bits BitmapType.inode m, inode_max_num - count_bits BitmapType.inode m)

  unfoldable pub count_data_blocks : BitmapManager B → ℕ × ℕ
  count_data_blocks m =
      (count_bits BitmapType.data_block m, data_block_max_num - count_bits BitmapType.data_block m)

  unfoldable pub count_valid_data_blocks : BitmapManager B → ℕ
  count_valid_data_blocks m = data_block_max_num - count_bits BitmapType.data_block m

-- The ids `a, a + 1, …` of a range with `n` members.
abbrev pub range_from : ℕ → ℕ → List ℕ
range_from a zero = []
range_from a (suc n) = a ∷ range_from (suc a) n

abbrev pub concat {ℓ} : {A : Type ℓ} → List (List A) → List A
concat [] = []
concat (x ∷ xs) = x ++ concat xs

module _ {B : Type 0} (ext : External B) where
  open ext use {bits}

  -- A locked call on the manager.
  abbrev pub on_bitmaps : {A : Type 0} → (BitmapManager B → Outcome A × BitmapManager B) → M B A
  on_bitmaps f w = let (r, m) = f w.bitmaps in (r, record w { bitmaps = m })

  -- The free functions `alloc_bit` and `dealloc_inode_bit`.
  unfoldable pub alloc_bit : BitmapType → M B ℕ
  alloc_bit ty = on_bitmaps (alloc_bit_in bits ty)

  unfoldable pub dealloc_inode_bit : ℕ → M B Bool
  dealloc_inode_bit id = on_bitmaps (dealloc_bit_in bits BitmapType.inode id)

  -- The loop of `dealloc_data_bits`: the blocks whose bit was set. `block_id - DATA_START_BLOCK`
  -- panics below the data area.
  unfoldable pub dealloc_loop : List ℕ → M B (List ℕ)
  dealloc_loop [] = pure []
  dealloc_loop (id ∷ ids) =
      let rest = dealloc_loop ids in
      do
        assert (leb data_start_block id)
        success ← on_bitmaps (dealloc_bit_in bits BitmapType.data_block (id - data_start_block))
        more ← rest
        pure (if success then id ∷ more else more)

  unfoldable pub dealloc_data_bits : List ℕ → M B (Unit {0})
  dealloc_data_bits ids = do to_clear ← dealloc_loop ids; unwrap (clear_blocks to_clear)

  unfoldable pub dealloc_data_bit : ℕ → M B (Unit {0})
  dealloc_data_bit id = dealloc_data_bits (id ∷ [])

  -- `BitmapManager::read`
  unfoldable pub read_bitmaps : M B (Unit {0})
  read_bitmaps = do
    buffers ← get_blocks_buffers (
        map (λ id. (id, 0, block_size))
          (range_from inode_bitmap_start_block (inode_bitmap_num + data_bitmap_num)))
    modify (λ w. record w {
      bitmaps = record {
        inodes = map (bits.from_value) (concat (take inode_bitmap_num buffers));
        datas = map (bits.from_value) (concat (drop inode_bitmap_num buffers));
        last_inode_byte_pos = 0;
        last_data_byte_pos = 0;
      };
    })

  -- `write_bitmaps_to_blocks`: the loop over the ids, for the bitmap that starts at `start`.
  unfoldable pub write_bitmaps_loop : List ℕ → List ℕ → ℕ → List B → M B (Unit {0})
  write_bitmaps_loop [] ids start bitmap = pure tt
  write_bitmaps_loop (id ∷ rest) ids start bitmap = do
    let buffer = map (bits.into_value) (take block_size (drop ((id - start) * block_size) bitmap))
    assert (leb ((id - start + 1) * block_size) (length bitmap))
    b ← get_block_mut id ids
    put_block id (modify_bytes (λ _. buffer) b)
    write_bitmaps_loop rest ids start bitmap

  unfoldable pub cache_to_block : M B (Unit {0})
  cache_to_block = do
    let inode_ids = range_from inode_bitmap_start_block inode_bitmap_num
    let data_ids = range_from data_bitmap_start_block data_bitmap_num
    read_blocks_to_cache (inode_ids ++ data_ids)
    m ← gets (λ w. w.bitmaps)
    write_bitmaps_loop inode_ids inode_ids inode_bitmap_start_block m.inodes
    write_bitmaps_loop data_ids data_ids data_bitmap_start_block m.datas
