-- ===== src/Objects.antt =====
-- simdisk/src/block.rs, the objects in the blocks of an inode: its direct and indirect blocks.
-- The children have the insertion and removal of an object, and the check of the data bitmap.
pub mod Insert
pub mod Remove
pub mod Check
pub mod Blocks
pub mod Listing
pub mod Unlink
use simple_fs_rust.Base.{
  ℕ, zero, suc, ◌+◌, ◌-◌, ◌*◌, ◌/◌, ◌==◌, ltb, Bool, true, false, not, List, [], ◌∷◌, ◌++◌, map,
  if◌then◌else◌, Bytes, bytes_eq, length, get_or, set, take,
}
use simple_fs_rust.Constants.{
  block_size, block_addr_size, direct_block_num, first_indirect_num, first_max, second_max,
  data_start_block,
}
use simple_fs_rust.State.{
  BlockLevel, BitmapType, Inode, Codec, BitOps, External, Error, Outcome, ok, err, panic, diverge,
  M, pure, fail, crash, gets, or_fail, attempt, is_ok, ◌>>=◌, ◌>>◌,
}
use simple_fs_rust.Cache.{get_blocks_buffers, get_block_buffer, write_block, deserialize}
use simple_fs_rust.Bitmap.{alloc_bit, dealloc_data_bit}

-- What `insert_object` and `remove_object` ask of their type: `Serialize`, `size_of`, `Default`
-- and `PartialEq`.
pub record Object (T : Type 0) : Type 0 where
  pub codec : Codec T
  pub size : ℕ
  pub default : T
  pub eq : T → T → Bool

abbrev pub LeveledBlock : Type 0
LeveledBlock = BlockLevel × ℕ × Bytes

-- `Inode::get_first_id`, `set_first_id`, `get_second_id`, `set_second_id`
abbrev pub get_first_id : Inode → ℕ
get_first_id inode = get_or inode.addr direct_block_num 0

abbrev pub set_first_id : ℕ → Inode → Inode
set_first_id id inode = record inode { addr = set inode.addr direct_block_num id }

abbrev pub get_second_id : Inode → ℕ
get_second_id inode = get_or inode.addr (direct_block_num + first_indirect_num) 0

abbrev pub set_second_id : ℕ → Inode → Inode
set_second_id id inode = record inode {
  addr = set inode.addr (direct_block_num + first_indirect_num) id;
}

-- The arguments `(block_id, i * size, i * size + size)` for `i`, `i + 1`, …: `n` of them.
abbrev pub chunk_args : ℕ → ℕ → ℕ → ℕ → List (ℕ × ℕ × ℕ)
chunk_args id size i zero = []
chunk_args id size i (suc n) = (id, i * size, i * size + size) ∷ chunk_args id size (i + 1) n

abbrev pub addr_args : ℕ → List (ℕ × ℕ × ℕ)
addr_args id = chunk_args id block_addr_size 0 (block_size / block_addr_size)

abbrev pub whole_block : ℕ → ℕ × ℕ × ℕ
whole_block id = (id, 0, block_size)

-- The addresses before the first 0, of at most `n`.
abbrev pub direct_prefix : ℕ → List ℕ → List ℕ
direct_prefix zero addr = []
direct_prefix (suc n) [] = []
direct_prefix (suc n) (a ∷ addr) = if a == 0 then [] else a ∷ direct_prefix n addr

abbrev pub zip_level : BlockLevel → List ℕ → List Bytes → List LeveledBlock
zip_level level [] bufs = []
zip_level level (id ∷ ids) [] = []
zip_level level (id ∷ ids) (b ∷ bufs) = (level, id, b) ∷ zip_level level ids bufs

pub block_is_empty : Bytes → Bool
block_is_empty [] = true
block_is_empty (b ∷ bs) = if not (b == 0) then false else block_is_empty bs

-- `retain` of `get_all_valid_blocks`
abbrev pub retain_valid : List LeveledBlock → List LeveledBlock
retain_valid [] = []
retain_valid (b ∷ bs) = if block_is_empty b.2 then retain_valid bs else b ∷ retain_valid bs

abbrev pub last_level : List LeveledBlock → Outcome BlockLevel
last_level [] = panic
last_level (b ∷ []) = ok b.0
last_level (b ∷ (c ∷ bs)) = last_level (c ∷ bs)

module _ {B : Type 0} (ext : External B) where
  open ext use {bits, block_id_codec, usize_codec}

  -- The loop of `get_block_of_first_arr` over the addresses: 0 is skipped.
  unfoldable pub direct_ids_loop : List Bytes → M B (List ℕ)
  direct_ids_loop [] = pure []
  direct_ids_loop (buf ∷ bufs) =
      let rest = direct_ids_loop bufs in
      do
        id ← deserialize block_id_codec buf
        more ← rest
        pure (if id == 0 then more else id ∷ more)

  abbrev pub flat_addr_args : List ℕ → List (ℕ × ℕ × ℕ)
  flat_addr_args [] = []
  flat_addr_args (id ∷ ids) = addr_args id ++ flat_addr_args ids

  unfoldable pub get_block_of_first_arr : List ℕ → M B (List LeveledBlock)
  get_block_of_first_arr first_ids = do
    addr_bufs ← get_blocks_buffers (flat_addr_args first_ids)
    ids ← direct_ids_loop addr_bufs
    bufs ← get_blocks_buffers (map whole_block ids)
    pure (zip_level BlockLevel.first_indirect ids bufs)

  unfoldable pub get_blocks_of_first : ℕ → M B (List LeveledBlock)
  get_blocks_of_first id = get_block_of_first_arr (id ∷ [])

  -- The loop of `get_blocks_of_second`: it stops at the first 0.
  unfoldable pub first_ids_loop : List Bytes → M B (List ℕ)
  first_ids_loop [] = pure []
  first_ids_loop (buf ∷ bufs) =
      let rest = first_ids_loop bufs in
      do
        id ← deserialize block_id_codec buf
        if id == 0 then pure [] else (do more ← rest; pure (id ∷ more))

  unfoldable pub get_blocks_of_second : ℕ → M B (List LeveledBlock)
  get_blocks_of_second second_id = do
    addr_bufs ← get_blocks_buffers (addr_args second_id)
    first_ids ← first_ids_loop addr_bufs
    bufs ← get_block_of_first_arr first_ids
    pure (map (λ b. (BlockLevel.second_indirect, b.1, b.2)) bufs)

  -- The indirect part of `get_all_blocks`, behind `l` direct blocks.
  unfoldable pub get_indirect_blocks : Inode → M B (List LeveledBlock)
  get_indirect_blocks inode = if get_first_id inode == 0 then pure [] else (do
    firsts ← get_blocks_of_first (get_first_id inode)
    if get_second_id inode == 0
        then pure firsts
        else (do seconds ← get_blocks_of_second (get_second_id inode); pure (firsts ++ seconds)))

  unfoldable pub get_all_blocks : Inode → M B (List LeveledBlock)
  get_all_blocks inode = do
    let ids = direct_prefix direct_block_num inode.addr
    bufs ← get_blocks_buffers (map whole_block ids)
    let directs = zip_level BlockLevel.direct ids bufs
    if ltb (length ids) direct_block_num
        then pure directs
        else (do others ← get_indirect_blocks inode; pure (directs ++ others))

  unfoldable pub get_all_valid_blocks : Inode → M B (List LeveledBlock)
  get_all_valid_blocks inode = do v ← get_all_blocks inode; pure (retain_valid v)

  module _ {T : Type 0} (object_type : Object T) where
    open object_type use {codec, size, default, eq}

    -- The loop of `try_insert_to_block`, with `n` rounds left.
    unfoldable pub try_insert_loop : ℕ → ℕ → T → ℕ → M B (Unit {0})
    try_insert_loop zero i object id = fail Error.no_enough_blocks
    try_insert_loop (suc n) i object id =
        let next = try_insert_loop n (i + 1) object id in
        do
          buf ← get_block_buffer id (i * size) (i * size + size)
          obj ← deserialize codec buf
          if eq obj default then write_block codec object id (i * size) else next

    unfoldable pub try_insert_to_block : T → ℕ → M B (Unit {0})
    try_insert_to_block object id = try_insert_loop (block_size / size) 0 object id

abbrev pub block_id_object : {B : Type 0} → External B → Object ℕ
block_id_object ext = record {
  codec = ext.block_id_codec;
  size = block_addr_size;
  default = 0;
  eq = ◌==◌;
}
