-- ===== src/Objects/Unlink.antt =====
-- simdisk/src/block.rs: `remove_object` at the second indirect level reads addresses of four bytes
-- as `usize`.
use simple_fs_rust.Base.{
  drop, ◌-◌, length-take, arith, ◌*◌, ◌+◌, ◌≡◌, map, none, ◌≢◌, ◌≤◌, List, Option, length, Bytes, ℕ,
  refl, [], ◌∷◌, zero, suc,
}
use simple_fs_rust.State.{BlockLevel, and_then, Error, err, World, Inode, External}
use simple_fs_rust.Cache.{with_cache, BlockCache}
use simple_fs_rust.Cache.Buffers.{
  get_blocks_buffers-Reads, or_empty, IsRange, store, range_of, Coherent,
}
use simple_fs_rust.Cache.Read.{Keeps, All}
use simple_fs_rust.Constants.{block_size, block_addr_size}
use simple_fs_rust.Objects.{get_second_id, chunk_args}
use simple_fs_rust.Objects.Remove.{clear_second_loop, unlink_block}

chunk_args-IsRange :
    (v : ℕ → Option Bytes) (id i n : ℕ)
    → v id ≢ none
    → (i + n) * block_addr_size ≤ block_size
    → All (IsRange v) (chunk_args id block_addr_size i n)
chunk_args-IsRange v id i zero h fits = tt
chunk_args-IsRange v id i (suc n) h fits =
    ((h, omega arith, omega arith), chunk_args-IsRange v id (i + 1) n h (omega arith))

IsShort : Bytes → Type 0
IsShort bs = length bs ≤ block_addr_size

chunk_args-IsShort :
    (v : ℕ → Option Bytes) (id i n : ℕ)
    → All IsShort (map (range_of v) (chunk_args id block_addr_size i n))
unfolding IsShort
chunk_args-IsShort v id i zero = tt
chunk_args-IsShort v id i (suc n) = (
  omega (
    arith,
    length-take (i * block_addr_size + block_addr_size - i * block_addr_size)
        (drop (i * block_addr_size) (or_empty (v id))),
  ),
  chunk_args-IsShort v id (i + 1) n,
)

chunk_args_some :
    (v : ℕ → Option Bytes) (id i n : ℕ)
    → map (range_of v) (chunk_args id block_addr_size i (suc n)) ≢ []
chunk_args_some v id i n p = cc p

module _ {B : Type 0} (ext : External B) where
  open ext use {usize_codec}

  clear_second_loop_fails :
      (bufs : List Bytes) (i last block_id : ℕ) (w : World B)
      → ((bs : Bytes) → length bs ≤ block_addr_size → usize_codec.of_bytes bs ≡ none)
      → bufs ≢ []
      → All IsShort bufs
      → clear_second_loop ext bufs i last block_id w ≡ (err Error.cannot_deserialize, w)
  unfolding clear_second_loop IsShort
  clear_second_loop_fails [] i last block_id w no_usize some_left short = absurd (some_left refl)
  clear_second_loop_fails (buf ∷ bufs) i last block_id w no_usize some_left short =
      rw (no_usize buf short.0, and_then) refl

  -- In a coherent world with the second-level block in the store, where a `usize` cannot be decoded
  -- from four bytes, unlinking a block of the second indirect level always fails with a decoding
  -- error: it changes nothing but the cache, so the address of the block stays.
  pub unlink_block_second :
      (block_id : ℕ) (inode : Inode) (w : World B)
      → Coherent w
      → ((bs : Bytes) → length bs ≤ block_addr_size → usize_codec.of_bytes bs ≡ none)
      → store w (get_second_id inode) ≢ none
      → (c : BlockCache) × (unlink_block ext BlockLevel.second_indirect block_id inode w
          ≡ (err Error.cannot_deserialize, with_cache w c))
        × Keeps w.disk w.manager.block_cache c
  unfolding unlink_block
  unlink_block_second block_id inode w h no_usize there =
      let id = get_second_id inode in
      let args = chunk_args id block_addr_size 0 256 in
      let (c, e, k) =
        get_blocks_buffers-Reads args w h
          (chunk_args-IsRange (store w) id 0 256 there (omega arith)) in
      let fails =
        clear_second_loop_fails (map (range_of (store w)) args) 0 0 block_id (with_cache w c)
          no_usize (chunk_args_some (store w) id 0 255) (chunk_args-IsShort (store w) id 0 256) in
      (c, rw (e, and_then) (rw (fails, and_then) refl), k)
