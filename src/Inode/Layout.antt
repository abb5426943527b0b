-- ===== src/Inode/Layout.antt =====
-- simdisk/src/inode.rs: where `cal_offset` puts the inodes, and how `alloc_data_blocks` shares the
-- blocks of a file out.
use simple_fs_rust.Base.{ap, arith, ◌%◌, ◌-◌, ◌+◌, ◌/◌, ◌*◌, ◌↔◌, ◌<◌, ◌≡◌, ◌≤◌, ℕ, refl}
use simple_fs_rust.Constants.{
  inode_size, second_max, data_start_block, first_max, block_size, inode_start_block,
  direct_block_num, inode_max_num,
}
use simple_fs_rust.Inode.{second_nums, first_nums, block_nums, cal_offset, direct_nums}

-- Two inodes have the same block and offset exactly when their numbers agree in the quotient by the size of a
-- block and in the remainder by 16.
pub cal_offset-same :
    (i j : ℕ)
    → (cal_offset i ≡ cal_offset j) ↔ ((i / block_size ≡ j / block_size) × (i % 16 ≡ j % 16))
unfolding cal_offset
cal_offset-same i j = (
  λ e.
      let a : i / block_size + inode_start_block ≡ j / block_size + inode_start_block =
        ap (λ (p : ℕ × ℕ). p.0) e in
      let b : i % 16 * inode_size ≡ j % 16 * inode_size = ap (λ (p : ℕ × ℕ). p.1) e in
      (omega arith, omega arith),
  λ p. rw (p.0, p.1) refl,
)

-- The byte of the host file where an inode begins.
abbrev pub place : ℕ → ℕ
place i = (cal_offset i).0 * block_size + (cal_offset i).1

-- An inode whose number is below the largest is put inside one block of the inode area.
pub cal_offset-inside :
    (i : ℕ)
    → i < inode_max_num
    → (inode_start_block ≤ (cal_offset i).0)
      × ((cal_offset i).0 < data_start_block)
      × ((cal_offset i).1 + inode_size ≤ block_size)
unfolding cal_offset
cal_offset-inside i h = (omega arith, omega arith, omega arith)

-- The number of blocks for a size is at least one; they hold the size, and where there is more than
-- one, one block less would not.
pub block_nums-enough :
    (size : ℕ)
    → (size ≤ block_nums size * block_size)
      × (0 < block_nums size)
      × ((block_nums size - 1) * block_size ≤ size - 1)
unfolding block_nums
block_nums-enough size = ground arith

-- For a number of blocks that `alloc_data_blocks` accepts, the direct blocks and those below the
-- first-level and second-level blocks make up the number, and each part is within what its level
-- can address.
pub level_nums-sum :
    (n : ℕ)
    → n ≤ direct_block_num + first_max + second_max
    → (direct_nums n + first_nums n + second_nums n ≡ n)
      × (direct_nums n ≤ direct_block_num)
      × (first_nums n ≤ first_max)
      × (second_nums n ≤ second_max)
unfolding direct_nums first_nums second_nums
level_nums-sum n h = ground arith
