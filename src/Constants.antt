-- ===== src/Constants.antt =====
-- simdisk/src/fs_constants.rs: the layout of the disk, in bytes and blocks. The sizes of the
-- structs are those that `Inode::new_root` and README.md give: a super block is ten `usize`.
use simple_fs_rust.Base.{ℕ, ◌+◌, ◌*◌, ◌/◌}

abbrev pub magic_number : ℕ
magic_number = 0x2F02BA345D

abbrev pub block_size : ℕ
block_size = 1024

abbrev pub fs_size_bytes : ℕ
fs_size_bytes = 100 * 1024 * 1024

abbrev pub inode_size : ℕ
inode_size = 64

abbrev pub dirent_size : ℕ
dirent_size = 16

abbrev pub super_block_size : ℕ
super_block_size = 80

abbrev pub block_addr_size : ℕ
block_addr_size = 4

abbrev pub inode_bitmap_num : ℕ
inode_bitmap_num = 1

abbrev pub data_bitmap_num : ℕ
data_bitmap_num = 12

abbrev pub inode_max_num : ℕ
inode_max_num = inode_bitmap_num * block_size * 8

abbrev pub inode_block_num : ℕ
inode_block_num = inode_max_num * inode_size / block_size

abbrev pub data_block_max_num : ℕ
data_block_max_num = data_bitmap_num * block_size * 8

abbrev pub inode_bitmap_start_block : ℕ
inode_bitmap_start_block = inode_bitmap_num

abbrev pub data_bitmap_start_block : ℕ
data_bitmap_start_block = inode_bitmap_start_block + inode_bitmap_num

abbrev pub inode_start_block : ℕ
inode_start_block = data_bitmap_start_block + data_bitmap_num

abbrev pub data_start_block : ℕ
data_start_block = inode_start_block + inode_block_num

abbrev pub user_start_byte : ℕ
user_start_byte = super_block_size + 16

abbrev pub direct_block_num : ℕ
direct_block_num = 8

abbrev pub first_indirect_num : ℕ
first_indirect_num = 1

abbrev pub second_indirect_num : ℕ
second_indirect_num = 1

abbrev pub addr_total_size : ℕ
addr_total_size = direct_block_num + first_indirect_num + second_indirect_num

abbrev pub indirect_addr_num : ℕ
indirect_addr_num = block_size / block_addr_size

abbrev pub first_max : ℕ
first_max = first_indirect_num * indirect_addr_num

abbrev pub second_max : ℕ
second_max = second_indirect_num * indirect_addr_num * first_max

abbrev pub name_length_limit : ℕ
name_length_limit = 10

abbrev pub extension_length_limit : ℕ
extension_length_limit = 3

abbrev pub max_file_size : ℕ
max_file_size = block_size * (direct_block_num + first_max + second_max)
