-- ===== src/Inode/RoundTrip.antt =====
-- simdisk/src/inode.rs: an inode that `cache` wrote and `read` reads.
use simple_fs_rust.Base.{ap, ◌+◌, arith, ◌≡◌, none, ◌≢◌, ◌<◌, Bytes, ℕ, refl}
use mathlib.Core.Path.{subst}
use simple_fs_rust.State.{unwrapped, and_then, ok, Encodes, World, Inode, External}
use simple_fs_rust.Cache.{get_block_buffer, with_cache, BlockCache}
use simple_fs_rust.Cache.Buffers.{Reads, store, Coherent}
use simple_fs_rust.Cache.RoundTrip.{write_block-get_block_buffer}
use simple_fs_rust.Constants.{inode_max_num, inode_size}
use simple_fs_rust.Inode.{cal_offset, read_inode, cache_inode}
use simple_fs_rust.Inode.Layout.{cal_offset-inside}

module _ {B : Type 0} (ext : External B) where
  -- In a coherent world, where the inode's number is below the largest, its block is in the store
  -- and it is encoded in as many bytes as an inode has, `cache` of the inode succeeds; `read` of
  -- any number with the same place, its own or another's, then returns this inode and only reads.
  pub cache_inode-read_inode_same_place :
      (inode : Inode) (j : ℕ) (bs : Bytes) (w : World B)
      → Coherent w
      → Encodes ext.inode_codec inode_size inode bs
      → inode.inode_id < inode_max_num
      → store w (cal_offset inode.inode_id).0 ≢ none
      → cal_offset j ≡ cal_offset inode.inode_id
      → (c : BlockCache) × (cache_inode ext inode w ≡ (ok tt, with_cache w c))
        × Coherent (with_cache w c)
        × Reads (with_cache w c) inode (read_inode ext j (with_cache w c))
  unfolding cache_inode read_inode
  cache_inode-read_inode_same_place inode j bs w h enc inside there same =
      let place = cal_offset inode.inode_id in
      let (c, e, coherent, (d, e', k)) =
        write_block-get_block_buffer ext.inode_codec inode place.0 place.1 bs w h enc.written
          (omega (arith, enc.size_lem, (cal_offset-inside inode.inode_id inside).2)) there in
      let got =
        subst
          (λ (n : ℕ).
            get_block_buffer place.0 place.1 (place.1 + n) (with_cache w c)
            ≡ (ok bs, with_cache w d))
          enc.size_lem e' in
      (c, ap unwrapped e, coherent, (d, rw (same, got, and_then) (rw (enc.read_back) refl), k))
