-- ===== src/Objects/Blocks.antt =====
-- simdisk/src/block.rs: the test of `block_is_empty`, and the blocks that `get_all_valid_blocks` keeps.
use simple_fs_rust.Base.{arith, ◌∷◌, length, replicate, ◌↔◌, true, ◌≡◌, Bytes, refl, []}
use simple_fs_rust.Objects.{block_is_empty}

-- `block_is_empty` holds of exactly the blocks whose bytes are all 0.
pub block_is_empty-zeros :
    (bs : Bytes) → (block_is_empty bs ≡ true) ↔ (bs ≡ replicate (length bs) 0)
unfolding block_is_empty
block_is_empty-zeros [] = (λ _. refl, λ _. refl)
block_is_empty-zeros (b ∷ bs) = ground (arith, block_is_empty-zeros bs)
