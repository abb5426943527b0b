-- ===== src/Tests/Blocks.antt =====
-- Reads and writes of blocks, inodes, the super block and the users, at one world.
use simple_fs_rust.Base.{
  List, ltb, ◌≤◌, if◌then◌else◌, length, ◌++◌, arith, ◌≢◌, splice, ◌+◌, map, codes, get_or,
  replicate, ◌<◌, ◌≡◌, Bytes, ℕ, refl, [], ◌∷◌, none, some,
}
use simple_fs_rust.State.{
  Error, err, BlockLevel, InodeType, ok, Inode, SuperBlock, Codec, Encodes, External, User,
}
use simple_fs_rust.Cache.{
  write_file_content_to_blocks, clear_blocks, get_block_buffer, get_blocks_buffers, with_cache,
  sync_and_clear_cache, write_block, BlockCache,
}
use simple_fs_rust.Cache.Buffers.{get_blocks_buffers-Reads, Coherent, range_of, store, Reads}
use simple_fs_rust.Cache.Clear.{clear_blocks-Writes, cleared}
use simple_fs_rust.Cache.Fill.{write_file_content_to_blocks-Writes, filled}
use simple_fs_rust.Cache.Read.{Keeps, All}
use simple_fs_rust.Cache.RoundTrip.{write_block-get_block_buffer}
use simple_fs_rust.Cache.Sync.{sync_and_clear_cache-IsSynced, IsSynced}
use simple_fs_rust.Cache.Write.{write_block-Writes, update, Writes}
use simple_fs_rust.Constants.{block_addr_size, data_start_block, block_size, inode_size}
use simple_fs_rust.Inode.{read_inode, rdwr, fresh_inode, cache_inode, cal_offset}
use simple_fs_rust.Inode.Layout.{cal_offset-inside, cal_offset-same}
use simple_fs_rust.Inode.RoundTrip.{cache_inode-read_inode_same_place}
use simple_fs_rust.Objects.{LeveledBlock, get_all_valid_blocks}
use simple_fs_rust.Objects.Check.{check_data_and_fix-Reads}
use simple_fs_rust.Objects.Listing.{KeepsBlocks, get_all_valid_blocks-Reads}
use simple_fs_rust.Objects.Remove.{unlink_block, check_data_and_fix}
use simple_fs_rust.Objects.Unlink.{unlink_block_second}
use simple_fs_rust.SuperBlock.{read_super_block, initial_super_block, init_super_block}
use simple_fs_rust.SuperBlock.RoundTrip.{init_super_block-read_super_block}
use simple_fs_rust.Tests.Bits.{bit_ops, Bits}
use simple_fs_rust.Tests.Worlds.{new_users, world-Coherent, no_inode, users, world}
use simple_fs_rust.User.{set_users, read_users, sign_up, add_user}
use simple_fs_rust.User.RoundTrip.{sign_up-read_users}

abbrev none_codec : {T : Type 0} → Codec T
none_codec = record { to_bytes = λ x. none; of_bytes = λ bs. none }

-- An inode as its number and 63 bytes more.
abbrev inodes : Codec Inode
inodes = record {
  to_bytes = λ i. some (i.inode_id ∷ replicate 63 0);
  of_bytes = λ bs. some (fresh_inode InodeType.file (get_or bs 0 0) rdwr 0 1 1 0);
}

abbrev numbers : Codec ℕ
numbers = record {
  to_bytes = λ n. some (n ∷ (0 ∷ (0 ∷ (0 ∷ []))));
  of_bytes = λ bs. some (get_or bs 0 0);
}

-- A table of users as its next id: the names are those of `new_users`.
abbrev tables : Codec User
tables = record {
  to_bytes = λ u. some (u.max_id ∷ []);
  of_bytes = λ bs. some (record new_users { max_id = get_or bs 0 0 });
}

abbrev super_blocks : Codec SuperBlock
super_blocks = record {
  to_bytes = λ s. some (s.data_bitmap_size ∷ replicate 79 0);
  of_bytes = λ bs. some (record initial_super_block { data_bitmap_size = get_or bs 0 0 });
}

abbrev pub ext : External (Bits 8)
ext = record {
  bits = bit_ops;
  inode_codec = inodes;
  dirent_codec = none_codec;
  dirents_codec = none_codec;
  block_id_codec = numbers;
  usize_codec = numbers;
  user_codec = tables;
  super_block_codec = super_blocks;
  info_text = λ a b. [];
  users_text = λ u. [];
  detail_text = λ i d n bs. [];
}

abbrev sevens : Bytes
sevens = replicate block_size 7

write_block-Writes_example :
    Writes world
      (update (store world) 20 (splice 8 (5 ∷ (0 ∷ (0 ∷ (0 ∷ [])))) sevens))
      (write_block numbers 5 20 8 world)
write_block-Writes_example =
    write_block-Writes numbers 5 20 8 (5 ∷ (0 ∷ (0 ∷ (0 ∷ [])))) sevens world world-Coherent refl
      (omega arith) refl

get_blocks_buffers-Reads_example :
    Reads world
      (map (range_of (store world)) ((20, 0, 4) ∷ ((21, 8, 12) ∷ [])))
      (get_blocks_buffers ((20, 0, 4) ∷ ((21, 8, 12) ∷ [])) world)
get_blocks_buffers-Reads_example =
    get_blocks_buffers-Reads ((20, 0, 4) ∷ ((21, 8, 12) ∷ [])) world world-Coherent
      ((λ p. cc p, omega arith, omega arith), ((λ p. cc p, omega arith, omega arith), tt))

sync_and_clear_cache-IsSynced_example : IsSynced world (sync_and_clear_cache world)
sync_and_clear_cache-IsSynced_example = sync_and_clear_cache-IsSynced world world-Coherent

add_eve : add_user (codes "eve") (codes "pw") users ≡ ok new_users
unfolding add_user
add_eve = refl

no_inode-Encodes : Encodes inodes inode_size no_inode (3 ∷ replicate 63 0)
no_inode-Encodes = record { written = refl; read_back = refl; size_lem = refl }

stored : (k : ℕ) → k < 1000 → store world k ≢ none
stored k h = λ p. ground arith

super_written : super_blocks.to_bytes initial_super_block ≡ some (12 ∷ replicate 79 0)
unfolding initial_super_block
super_written = refl

super_read :
    (rest : Bytes)
    → super_blocks.of_bytes ((12 ∷ replicate 79 0) ++ rest) ≡ some initial_super_block
unfolding initial_super_block
super_read rest = refl

-- Inodes 19 and 3 have one place.
same_place : cal_offset 19 ≡ cal_offset 3
same_place = let e = cal_offset-same 19 3 in e.1 (refl, refl)

cache_inode-read_inode_same_place_example :
    (c : BlockCache) × (cache_inode ext no_inode world ≡ (ok tt, with_cache world c))
    × Coherent (with_cache world c)
    × Reads (with_cache world c) no_inode (read_inode ext 19 (with_cache world c))
cache_inode-read_inode_same_place_example =
    cache_inode-read_inode_same_place ext no_inode 19 (3 ∷ replicate 63 0) world world-Coherent
      no_inode-Encodes (omega arith)
      (stored (cal_offset 3).0 (omega (arith, cal_offset-inside 3 (omega arith)))) same_place

write_block-get_block_buffer_example :
    (c : BlockCache) × (write_block numbers 5 20 8 world ≡ (ok tt, with_cache world c))
    × Coherent (with_cache world c)
    × Reads
        (with_cache world c)
        (5 ∷ (0 ∷ (0 ∷ (0 ∷ []))))
        (get_block_buffer 20 8 12 (with_cache world c))
write_block-get_block_buffer_example =
    write_block-get_block_buffer numbers 5 20 8 (5 ∷ (0 ∷ (0 ∷ (0 ∷ [])))) world world-Coherent refl
      (omega arith) (λ p. cc p)

init_super_block-read_super_block_example :
    (c : BlockCache) × (init_super_block ext world ≡ (ok tt, with_cache world c))
    × Reads (with_cache world c) initial_super_block (read_super_block ext (with_cache world c))
init_super_block-read_super_block_example =
    init_super_block-read_super_block ext (12 ∷ replicate 79 0) world world-Coherent super_written
      super_read refl (λ p. cc p)

sign_up-read_users_example :
    (c : BlockCache) × (sign_up ext (codes "eve") (codes "pw") world
      ≡ (ok tt, with_cache (set_users ext new_users world).1 c))
    × Reads
        (with_cache (set_users ext new_users world).1 c)
        new_users
        (read_users ext (with_cache (set_users ext new_users world).1 c))
sign_up-read_users_example =
    sign_up-read_users ext (codes "eve") (codes "pw") new_users (2 ∷ []) world world-Coherent
      add_eve refl (λ rest. refl) (omega arith) (λ p. cc p)

check_data_and_fix-Reads_example : Reads world tt (check_data_and_fix ext world)
check_data_and_fix-Reads_example =
    check_data_and_fix-Reads ext world world-Coherent
      (λ k h. stored (k + data_start_block) (omega arith))

stored_pair : All (λ id. store world id ≢ none) (20 ∷ (526 ∷ []))
stored_pair = (stored 20 (omega arith), (stored 526 (omega arith), tt))

clear_blocks-Writes_example :
    Writes world (cleared (store world) (20 ∷ (526 ∷ []))) (clear_blocks (20 ∷ (526 ∷ [])) world)
clear_blocks-Writes_example = clear_blocks-Writes (20 ∷ (526 ∷ [])) world world-Coherent stored_pair

abbrev two_blocks : Inode
two_blocks = record no_inode { addr = 20 ∷ (526 ∷ replicate 8 0) }

get_all_valid_blocks-Reads_example :
    (out : List LeveledBlock) × KeepsBlocks (store world) (20 ∷ (526 ∷ [])) out
    × Reads world out (get_all_valid_blocks ext two_blocks world)
get_all_valid_blocks-Reads_example =
    get_all_valid_blocks-Reads ext two_blocks (20 ∷ (526 ∷ [])) (replicate 7 0) world world-Coherent
      refl ((λ q. cc q), ((λ q. cc q), tt)) (omega arith) stored_pair

-- A `usize` has eight bytes.
abbrev words : Codec ℕ
words = record {
  to_bytes = λ n. some (n ∷ replicate 7 0);
  of_bytes = λ bs. if ltb (length bs) 8 then none else some (get_or bs 0 0);
}

words_short : (bs : Bytes) → length bs ≤ block_addr_size → words.of_bytes bs ≡ none
words_short bs h = ground arith

abbrev wide_ext : External (Bits 8)
wide_ext = record ext { usize_codec = words }

abbrev three_levels : Inode
three_levels = record no_inode { addr = replicate 9 0 ++ (20 ∷ []) }

unlink_block_second_example :
    (c : BlockCache) × (unlink_block wide_ext BlockLevel.second_indirect 530 three_levels world
      ≡ (err Error.cannot_deserialize, with_cache world c))
    × Keeps world.disk world.manager.block_cache c
unlink_block_second_example =
    unlink_block_second wide_ext 530 three_levels world world-Coherent words_short
      (stored 20 (omega arith))

write_file_content_to_blocks-Writes_example :
    Writes world
      (filled (store world) (codes "hi" ∷ (codes "yo" ∷ [])) (20 ∷ (526 ∷ [])))
      (write_file_content_to_blocks (codes "hi" ∷ (codes "yo" ∷ [])) (20 ∷ (526 ∷ [])) world)
write_file_content_to_blocks-Writes_example =
    write_file_content_to_blocks-Writes (codes "hi" ∷ (codes "yo" ∷ [])) (20 ∷ (526 ∷ [])) world
      world-Coherent refl (omega arith, (omega arith, tt)) stored_pair
