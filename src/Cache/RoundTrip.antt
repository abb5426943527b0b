-- ===== src/Cache/RoundTrip.antt =====
-- What is written through the cache of simdisk/src/block.rs is read back.
use simple_fs_rust.Base.{
  length-drop, length-append, take_all, length-take, drop-append, ◌-◌, take, drop, ◌++◌, slice, ap,
  ◌∙◌, inr, inl, Option-cases, arith, none, slice-splice, ==_self, ◌≢◌, splice, some, ◌≡◌, ◌≤◌, ◌+◌,
  length, Bytes, Option, ℕ, refl, sym,
}
use simple_fs_rust.State.{ok, World, Codec}
use simple_fs_rust.Cache.{get_block_buffer, with_cache, write_block, BlockCache}
use simple_fs_rust.Cache.Buffers.{
  or_empty, get_block_buffer-Reads, Reads, store, range_of, Coherent,
}
use simple_fs_rust.Cache.View.{view, view-size}
use simple_fs_rust.Cache.Write.{write_block-Writes, update}
use simple_fs_rust.Constants.{block_size}

after_splice :
    (v : ℕ → Option Bytes) (id start : ℕ) (bs old : Bytes)
    → length bs + start ≤ length old
    → range_of (update v id (splice start bs old)) (id, start, start + length bs) ≡ bs
after_splice v id start bs old h = rw (==_self id) (slice-splice start bs old (omega arith))

rest_after_splice :
    (v : ℕ → Option Bytes) (id start : ℕ) (bs old : Bytes)
    → length bs + start ≤ length old
    → length old ≡ block_size
    → range_of (update v id (splice start bs old)) (id, start, block_size)
      ≡ bs ++ drop (start + length bs) old
rest_after_splice v id start bs old h size =
    let rest = bs ++ drop (start + length bs) old in
    rw (==_self id) (
      ap (take (block_size - start))
        (drop-append (take start old) rest start (omega (arith, length-take start old)))
      ∙ take_all (block_size - start) rest (
          omega (
            arith,
            length-append bs (drop (start + length bs) old),
            length-drop (start + length bs) old,
          )))

module _ {B : Type 0} where
  -- In a coherent world, where the block is in the store and the encoded object fits behind
  -- `start`, `write_block` succeeds and changes nothing but the cache, which stays coherent; the
  -- `get_block_buffer` of those bytes that follows returns the encoded object and only reads.
  pub write_block-get_block_buffer :
      {T : Type 0} (codec : Codec T) (object : T) (id start : ℕ) (bs : Bytes) (w : World B)
      → Coherent w
      → codec.to_bytes object ≡ some bs
      → length bs + start ≤ block_size
      → store w id ≢ none
      → (c : BlockCache) × (write_block codec object id start w ≡ (ok tt, with_cache w c))
        × Coherent (with_cache w c)
        × Reads (with_cache w c) bs (get_block_buffer id start (start + length bs) (with_cache w c))
  write_block-get_block_buffer codec object id start bs w h enc fits there =
      elim (Option-cases (store w id)) [
        | inl q ↦ absurd (there q)
        | inr (old, q) ↦
            let (c, e, coherent, new) =
              write_block-Writes codec object id start bs old w h enc fits q in
            let size = view-size w.manager.block_cache w.disk id old h q in
            let v = update (store w) id (splice start bs old) in
            let found : v id ≡ some (splice start bs old) = rw (==_self id) refl in
            let (d, e', k) =
              get_block_buffer-Reads id start (start + length bs) (with_cache w c) coherent
                (λ p. cc (sym found ∙ sym (new id) ∙ p), omega arith, omega arith) in
            let same : range_of (view c w.disk) (id, start, start + length bs) ≡ bs =
              ap (λ o. slice start (start + length bs) (or_empty o)) (new id)
              ∙ after_splice (store w) id start bs old (omega arith) in
            (c, e, coherent, (d, e' ∙ ap (λ x. (ok x, with_cache w d)) same, k))
      ]

  -- An object that `write_block` wrote, read back with what follows it in its block.
  pub write_block-get_rest :
      {T : Type 0} (codec : Codec T) (object : T) (id start : ℕ) (bs : Bytes) (w : World B)
      → Coherent w
      → codec.to_bytes object ≡ some bs
      → length bs + start ≤ block_size
      → store w id ≢ none
      → (c : BlockCache) × (write_block codec object id start w ≡ (ok tt, with_cache w c))
        × Coherent (with_cache w c)
        × (rest : Bytes) × Reads
            (with_cache w c)
            (bs ++ rest)
            (get_block_buffer id start block_size (with_cache w c))
  write_block-get_rest codec object id start bs w h enc fits there =
      elim (Option-cases (store w id)) [
        | inl q ↦ absurd (there q)
        | inr (old, q) ↦
            let (c, e, coherent, new) =
              write_block-Writes codec object id start bs old w h enc fits q in
            let size = view-size w.manager.block_cache w.disk id old h q in
            let found : update (store w) id (splice start bs old) id ≡ some (splice start bs old) =
              rw (==_self id) refl in
            let (d, e', k) =
              get_block_buffer-Reads id start block_size (with_cache w c) coherent
                (λ p. cc (sym found ∙ sym (new id) ∙ p), omega arith, omega arith) in
            let same : range_of (view c w.disk) (id, start, block_size)
                ≡ bs ++ drop (start + length bs) old =
              ap (λ o. slice start block_size (or_empty o)) (new id)
              ∙ rest_after_splice (store w) id start bs old (omega arith) size in
            (
              c,
              e,
              coherent,
              drop (start + length bs) old,
              (d, e' ∙ ap (λ x. (ok x, with_cache w d)) same, k),
            )
      ]
