-- ===== src/SuperBlock.antt =====
-- simdisk/src/super_block.rs
pub mod RoundTrip
use simple_fs_rust.Base.{◌-◌, ◌/◌, ◌==◌, Bool}
use simple_fs_rust.Constants.{
  magic_number, block_size, fs_size_bytes, inode_start_block, inode_block_num,
  inode_bitmap_start_block, inode_bitmap_num, data_start_block, data_bitmap_start_block,
  data_bitmap_num,
}
use simple_fs_rust.State.{SuperBlock, External, M, pure, attempt, ◌>>=◌}
use simple_fs_rust.Cache.{write_block, get_block_buffer, deserialize}

-- The super block that `SuperBlock::init` writes.
unfoldable pub initial_super_block : SuperBlock
initial_super_block = record {
  magic = magic_number;
  fs_size = fs_size_bytes / block_size;
  first_block_of_inode_bitmap = inode_bitmap_start_block;
  inode_bitmap_size = inode_bitmap_num;
  first_inode = inode_start_block;
  inode_area_size = inode_block_num;
  first_block_of_data_bitmap = data_bitmap_start_block;
  data_bitmap_size = data_bitmap_num;
  first_data_block = data_start_block;
  data_size = fs_size_bytes - data_start_block;
}

unfoldable pub valid : SuperBlock → Bool
valid sp = sp.magic == magic_number

module _ {B : Type 0} (ext : External B) where
  open ext use {super_block_codec}

  -- The result of the write is dropped.
  unfoldable pub init_super_block : M B (Unit {0})
  init_super_block = do r ← attempt (write_block super_block_codec initial_super_block 0 0); pure tt

  unfoldable pub read_super_block : M B SuperBlock
  read_super_block = do buf ← get_block_buffer 0 0 block_size; deserialize super_block_codec buf
