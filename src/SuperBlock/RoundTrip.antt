-- ===== src/SuperBlock/RoundTrip.antt =====
-- simdisk/src/super_block.rs: the super block that `init` wrote is read and valid.
use simple_fs_rust.Base.{ap, none, ◌≢◌, length, ◌++◌, some, Bytes, arith, ◌≡◌, refl}
use simple_fs_rust.State.{pure, attempted, and_then, ok, World, External}
use simple_fs_rust.Cache.{with_cache, BlockCache}
use simple_fs_rust.Cache.Buffers.{Reads, store, Coherent}
use simple_fs_rust.Cache.RoundTrip.{write_block-get_rest}
use simple_fs_rust.Constants.{super_block_size}
use simple_fs_rust.SuperBlock.{read_super_block, init_super_block, initial_super_block}

module _ {B : Type 0} (ext : External B) where
  -- In a coherent world with block 0 in the store, where the super block is encoded in its size and
  -- decoding does not mind what follows, `init` succeeds and the `read` that follows returns the
  -- super block and only reads.
  pub init_super_block-read_super_block :
      (bs : Bytes) (w : World B)
      → Coherent w
      → ext.super_block_codec.to_bytes initial_super_block ≡ some bs
      → ((rest : Bytes) → ext.super_block_codec.of_bytes (bs ++ rest) ≡ some initial_super_block)
      → length bs ≡ super_block_size
      → store w 0 ≢ none
      → (c : BlockCache) × (init_super_block ext w ≡ (ok tt, with_cache w c))
        × Reads (with_cache w c) initial_super_block (read_super_block ext (with_cache w c))
  unfolding init_super_block read_super_block
  init_super_block-read_super_block bs w h enc dec size there =
      let (c, e, coherent, rest, (d, e', k)) =
        write_block-get_rest ext.super_block_codec initial_super_block 0 0 bs w h enc (omega arith)
          there in
      (
        c,
        ap (λ r. and_then (attempted r) (λ _. pure tt)) e,
        (d, rw (e', and_then) (rw (dec rest) refl), k),
      )
