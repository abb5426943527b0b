-- ===== src/Objects/Check.antt =====
-- simdisk/src/block.rs: what `check_data_and_fix` does to a file system whose blocks can be read.
use simple_fs_rust.Base.{
  Bool-cases, length, ◌∙◌, List, ◌*◌, ◌+◌, ◌<◌, ◌≤◌, length-take, arith, inr, inl, Option-cases,
  false, if◌then◌else◌, ◌≡◌, none, ◌≢◌, ℕ, sym, [], ◌∷◌, zero, suc,
}
use simple_fs_rust.State.{pure, ◌>>=◌, M, External, World}
use simple_fs_rust.Bitmap.{dealloc_data_bit}
use simple_fs_rust.Cache.{get_block_buffer, with_cache, BlockCache}
use simple_fs_rust.Cache.Buffers.{
  Reads-pure, Reads-then, get_block_buffer-Reads, range_of, Reads, store, Coherent,
}
use simple_fs_rust.Cache.Read.{Keeps}
use simple_fs_rust.Cache.View.{view-size}
use simple_fs_rust.Constants.{data_start_block, block_size}
use simple_fs_rust.Objects.Remove.{
  check_data_and_fix, check_data_bits, check_data_bytes, vec_is_empty,
}

module _ {B : Type 0} (ext : External B) where
  open ext use {bits}

  -- A whole block is never an empty vector.
  whole_block_not_empty :
      (w : World B) (id : ℕ)
      → Coherent w
      → store w id ≢ none
      → vec_is_empty (range_of (store w) (id, 0, block_size)) ≡ false
  whole_block_not_empty w id h there = elim (Option-cases (store w id)) [
    | inl q ↦ absurd (there q)
    | inr (bs, q) ↦
        let size = view-size w.manager.block_cache w.disk id bs h q in
        rw q (ground (arith, size, length-take block_size bs))
  ]

  -- What is done for a bit that is set.
  abbrev fix_block : ℕ → M B (Unit {0})
  fix_block id = do
    block ← get_block_buffer id 0 block_size
    if vec_is_empty block then dealloc_data_bit ext id else pure tt

  fix_block-Reads :
      (id : ℕ) (w : World B) → Coherent w → store w id ≢ none → Reads w tt (fix_block id w)
  fix_block-Reads id w h there =
      Reads-then w (get_block_buffer id 0 block_size)
        (λ block. if vec_is_empty block then dealloc_data_bit ext id else pure tt)
        (range_of (store w) (id, 0, block_size)) tt
        (get_block_buffer-Reads id 0 block_size w h (there, omega arith, omega arith))
        (λ c k. rw (whole_block_not_empty w id h there) (Reads-pure (with_cache w c) tt k.coherent))

  -- The blocks that the bits of a run of bytes stand for are in the store.
  abbrev BitsInStore : World B → ℕ → ℕ → Type 0
  BitsInStore w from n = (k : ℕ) → from ≤ k → k < from + n → store w (k + data_start_block) ≢ none

  check_data_bits-Reads :
      (n j i : ℕ) (byte : B) (w : World B)
      → Coherent w
      → BitsInStore w (i * 8 + j) n
      → Reads w tt (check_data_bits ext n j i byte w)
  unfolding check_data_bits
  check_data_bits-Reads zero j i byte w h there = Reads-pure w tt h
  check_data_bits-Reads (suc n) j i byte w h there =
      let id = i * 8 + j + data_start_block in
      let next = λ (u : Unit {0}). check_data_bits ext n (j + 1) i byte in
      let rest = λ (c : BlockCache) (k : Keeps w.disk w.manager.block_cache c).
        check_data_bits-Reads n (j + 1) i byte (with_cache w c) k.coherent (λ b p q r.
          there b (omega arith) (omega arith) (sym (k.same_view (b + data_start_block)) ∙ r)) in
      elim (Bool-cases (bits.get byte j)) [
        | inl one ↦ rw one (
            Reads-then w (fix_block id) next tt tt
              (fix_block-Reads id w h (there (i * 8 + j) (omega arith) (omega arith))) rest)
        | inr zero_bit ↦ rw zero_bit (Reads-then w (pure tt) next tt tt (Reads-pure w tt h) rest)
      ]

  check_data_bytes-Reads :
      (bytes : List B) (i : ℕ) (w : World B)
      → Coherent w
      → BitsInStore w (i * 8) (8 * length bytes)
      → Reads w tt (check_data_bytes ext bytes i w)
  unfolding check_data_bytes
  check_data_bytes-Reads [] i w h there = Reads-pure w tt h
  check_data_bytes-Reads (byte ∷ bytes) i w h there =
      Reads-then w (check_data_bits ext 8 0 i byte) (λ _. check_data_bytes ext bytes (i + 1)) tt tt
        (check_data_bits-Reads 8 0 i byte w h (λ k p q. there k (omega arith) (omega arith)))
        (λ c k. check_data_bytes-Reads bytes (i + 1) (with_cache w c) k.coherent (λ b p q r.
          there b (omega arith) (omega arith) (sym (k.same_view (b + data_start_block)) ∙ r)))

  -- In a coherent world where the block of every bit of the data bitmap is in the store,
  -- `check_data_and_fix` succeeds and changes nothing but the cache: it clears no bit, whatever the
  -- blocks hold.
  pub check_data_and_fix-Reads :
      (w : World B)
      → Coherent w
      → ((k : ℕ) → k < 8 * length w.bitmaps.datas → store w (k + data_start_block) ≢ none)
      → Reads w tt (check_data_and_fix ext w)
  unfolding check_data_and_fix
  check_data_and_fix-Reads w h there =
      check_data_bytes-Reads w.bitmaps.datas 0 w h (λ k p q. there k (omega arith))
