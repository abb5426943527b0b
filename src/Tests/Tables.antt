-- ===== src/Tests/Tables.antt =====
-- Names, paths, users, sizes and contents.
use simple_fs_rust.Base.{
  List, Bytes, arith, ◌-◌, replicate, ◌++◌, ◌*◌, ◌↔◌, ◌⊎◌, codes, ◌+◌, ◌<◌, ◌≡◌, ◌≤◌, refl, [], ◌∷◌,
  true, false,
}
use simple_fs_rust.State.{ok, DirEntry, User}
use simple_fs_rust.Command.{get_absolute_path}
use simple_fs_rust.Constants.{
  second_max, first_max, direct_block_num, block_size, inode_size, data_start_block,
  inode_start_block,
}
use simple_fs_rust.File.{split_inputs}
use simple_fs_rust.File.Chunks.{split_inputs_ascii, IsSplit}
use simple_fs_rust.Inode.{second_nums, first_nums, block_nums, cal_offset, direct_nums}
use simple_fs_rust.Inode.Layout.{level_nums-sum, block_nums-enough, cal_offset-inside}
use simple_fs_rust.Name.{pad, split_name, get_filename, new_dirent}
use simple_fs_rust.Name.Parts.{split_name-get_filename}
use simple_fs_rust.Objects.{block_is_empty}
use simple_fs_rust.Objects.Blocks.{block_is_empty-zeros}
use simple_fs_rust.Shell.{deal_with_dir}
use simple_fs_rust.Shell.Paths.{deal_with_dir-get_absolute_path}
use simple_fs_rust.Tests.Worlds.{users}
use simple_fs_rust.User.{add_user}
use simple_fs_rust.User.Table.{add_user_new, SignsUp}

add_user_new_example :
    (users' : User) × (add_user (codes "eve") (codes "pw") users ≡ ok users')
    × SignsUp (codes "eve") (codes "pw") users users'
add_user_new_example =
    add_user_new (codes "eve") (codes "pw") users refl (omega arith, tt) (omega arith)

split_inputs_ascii_example :
    (pieces : List Bytes) × (split_inputs (codes "hey") ≡ ok pieces) × IsSplit (codes "hey") pieces
split_inputs_ascii_example =
    split_inputs_ascii (codes "hey") (omega arith, (omega arith, (omega arith, tt)))

cal_offset-inside_example :
    (inode_start_block ≤ (cal_offset 8191).0)
    × ((cal_offset 8191).0 < data_start_block)
    × ((cal_offset 8191).1 + inode_size ≤ block_size)
cal_offset-inside_example = cal_offset-inside 8191 (omega arith)

level_nums-sum_example :
    (direct_nums 300 + first_nums 300 + second_nums 300 ≡ 300)
    × (direct_nums 300 ≤ direct_block_num)
    × (first_nums 300 ≤ first_max)
    × (second_nums 300 ≤ second_max)
level_nums-sum_example = level_nums-sum 300 (omega arith)

block_nums-enough_example :
    (1025 ≤ block_nums 1025 * block_size)
    × (0 < block_nums 1025)
    × ((block_nums 1025 - 1) * block_size ≤ 1025 - 1)
block_nums-enough_example = block_nums-enough 1025

abbrev two_bytes : Bytes
two_bytes = 0 ∷ (7 ∷ [])

block_is_empty-zeros_example : (block_is_empty two_bytes ≡ true) ↔ (two_bytes ≡ replicate 2 0)
block_is_empty-zeros_example = block_is_empty-zeros two_bytes

abbrev notes : DirEntry
notes = record {
  filename = pad 10 (codes "notes");
  extension = pad 3 (codes "md");
  is_dir = false;
  inode_id = 4;
}

notes_run :
    new_dirent (split_name (codes "notes.md")).0 (split_name (codes "notes.md")).1 false 4
    ≡ ok notes
unfolding new_dirent split_name
notes_run = refl

split_name-get_filename_example :
    (get_filename notes ≡ codes "notes.md") ⊎ (codes "notes.md" ≡ get_filename notes ++ (b'.' ∷ []))
split_name-get_filename_example =
    split_name-get_filename (codes "notes.md") false 4 notes
      (
        (λ p. cc p),
        (
          (λ p. cc p),
          (
            (λ p. cc p),
            ((λ p. cc p), ((λ p. cc p), ((λ p. cc p), ((λ p. cc p), ((λ p. cc p), tt))))),
          ),
        ),
      )
      notes_run

deal_with_dir-get_absolute_path_example :
    deal_with_dir (codes "a/b") (codes "~/home")
    ≡ ok (get_absolute_path (codes "~/home") (codes "a/b"))
deal_with_dir-get_absolute_path_example =
    deal_with_dir-get_absolute_path (codes "a/b") (codes "~/home")
      ((refl, refl), ((refl, refl), tt)) refl
