-- ===== src/Cache.antt =====
-- simdisk/src/block.rs, the block cache: reading blocks of the host's file into the cache, reading
-- and writing ranges of cached blocks, and writing the cache back. Each call runs without another
-- task between its locks.
pub mod View
pub mod Read
pub mod Buffers
pub mod Write
pub mod Sync
pub mod RoundTrip
pub mod Clear
pub mod Fill
use simple_fs_rust.Base.{
  ℕ, zero, suc, ◌+◌, ◌==◌, leb, ltb, Bool, true, false, ◌&&◌, Option, none, some, List, [], ◌∷◌,
  map, if◌then◌else◌, Bytes, length, replicate, slice, splice,
}
use simple_fs_rust.State.{
  lift, Block, BlockCacheManager, CacheMethod, World, Disk, Codec, Error, Outcome, ok, err, panic,
  diverge, M, pure, crash, gets, modify, assert, or_fail, or_crash, ◌>>=◌, ◌>>◌,
}
use simple_fs_rust.Constants.{block_size}

abbrev pub BlockCache : Type 0
BlockCache = List (ℕ × Block)

-- `HashMap::get`
abbrev pub lookup : ℕ → BlockCache → Option Block
lookup k [] = none
lookup k ((j, b) ∷ c) = if j == k then some b else lookup k c

abbrev pub is_some {ℓ} : {A : Type ℓ} → Option A → Bool
is_some none = false
is_some (some a) = true

abbrev pub contains_key : ℕ → BlockCache → Bool
contains_key k c = is_some (lookup k c)

-- `HashMap::insert`
abbrev pub insert : ℕ → Block → BlockCache → BlockCache
insert k b [] = (k, b) ∷ []
insert k b ((j, d) ∷ c) = if j == k then (k, b) ∷ c else (j, d) ∷ insert k b c

-- `seek` to a block and `write_all`; a write past the end makes the file longer.
abbrev pub write_all : ℕ → Bytes → Disk → Disk
write_all id bs d = record {
  len = if ltb id d.len then d.len else id + 1;
  blocks = λ j. if j == id then bs else d.blocks j;
}

-- `Block::modify_bytes`
abbrev pub modify_bytes : (Bytes → Bytes) → Block → Block
modify_bytes f b = record b { bytes = f b.bytes; modified = true }

pub new_cache_manager : BlockCacheManager
new_cache_manager = record { block_cache = []; cache_method = CacheMethod.immediately }

-- `File::open`, `seek` and `read_exact`, each with its error.
abbrev pub read_file : ℕ → Option Disk → Outcome Bytes
read_file id none = err Error.fs_file_missing
read_file id (some d) = if ltb id d.len then ok (d.blocks id) else err Error.cannot_read_buffer

abbrev pub fresh_block : ℕ → Bytes → Block
fresh_block id bs = record { block_id = id; bytes = bs; modified = false }

-- The loop of `read_blocks_to_cache_unblocking`: the file is opened at the first block that is
-- not cached, and stays the same.
unfoldable pub read_blocks_loop :
    List ℕ → Option Disk → BlockCache → Outcome (Unit {0}) × BlockCache
read_blocks_loop [] file cache = (ok tt, cache)
read_blocks_loop (id ∷ ids) file cache = elim (lookup id cache) [
  | some b ↦ read_blocks_loop ids file cache
  | none ↦ elim (read_file id file) [
    | ok bs ↦ read_blocks_loop ids file (insert id (fresh_block id bs) cache)
    | err e ↦ (err e, cache)
    | panic ↦ (panic, cache)
    | diverge ↦ (diverge, cache)
  ]
]

-- One pass over the arguments of `get_blocks_buffers`; `none` is a block that is not cached.
abbrev pub collect : List (ℕ × ℕ × ℕ) → BlockCache → Outcome (Option (List Bytes))
collect [] c = ok (some [])
collect ((id, start, end) ∷ args) c =
    let rest = collect args c in
    elim (lookup id c) [
      | none ↦ ok none
      | some b ↦
          if leb start end && leb end (length b.bytes)
          then elim rest [
            | ok (some bufs) ↦ ok (some (slice start end b.bytes ∷ bufs))
            | other ↦ other
          ]
          else panic
    ]

module _ {B : Type 0} where
  abbrev pub with_cache : World B → BlockCache → World B
  with_cache w c = record w { manager = record (w.manager) { block_cache = c } }

  unfoldable pub read_blocks_to_cache : List ℕ → M B (Unit {0})
  read_blocks_to_cache ids w =
      let (r, c) = read_blocks_loop ids w.disk w.manager.block_cache in (r, with_cache w c)

  -- `get_block_mut`: a block that is not cached is read again. The change of the block that
  -- follows at the callers is `put_block`.
  unfoldable pub get_block_mut : ℕ → List ℕ → M B Block
  get_block_mut id ids w = elim (lookup id w.manager.block_cache) [
    | some b ↦ (ok b, w)
    | none ↦
        (do read_blocks_to_cache ids; c ← gets (λ v. v.manager.block_cache); or_crash (lookup id c))
          w
  ]

  abbrev pub put_block : ℕ → Block → M B (Unit {0})
  put_block id b = modify (λ w. with_cache w (insert id b w.manager.block_cache))

  -- The end of a pass: a block that was missing starts the next one.
  abbrev pub after_pass : M B (List Bytes) → Outcome (Option (List Bytes)) → M B (List Bytes)
  after_pass again (ok none) v = again v
  after_pass again (ok (some bufs)) v = (ok bufs, v)
  after_pass again (err e) v = (err e, v)
  after_pass again panic v = (panic, v)
  after_pass again diverge v = (diverge, v)

  -- The `loop` of `get_blocks_buffers`, with fuel for its passes.
  unfoldable pub get_blocks_buffers_loop : ℕ → List (ℕ × ℕ × ℕ) → M B (List Bytes)
  get_blocks_buffers_loop zero args = lift diverge
  get_blocks_buffers_loop (suc fuel) args =
      let again = get_blocks_buffers_loop fuel args in
      do
        read_blocks_to_cache (map (λ a. a.0) args)
        c ← gets (λ v. v.manager.block_cache)
        after_pass again (collect args c)

  unfoldable pub get_blocks_buffers : List (ℕ × ℕ × ℕ) → M B (List Bytes)
  get_blocks_buffers = get_blocks_buffers_loop 1

  -- `buffers[0]`
  abbrev pub first_buffer : List Bytes → M B Bytes
  first_buffer [] = crash
  first_buffer (b ∷ bs) = pure b

  unfoldable pub get_block_buffer : ℕ → ℕ → ℕ → M B Bytes
  get_block_buffer id start end = do
    bufs ← get_blocks_buffers ((id, start, end) ∷ [])
    first_buffer bufs

  -- The loop of `write_file_content_to_blocks`: it goes through the block ids, and takes the
  -- contents by index.
  unfoldable pub write_contents_loop : List Bytes → List ℕ → List ℕ → M B (Unit {0})
  write_contents_loop contents [] ids = pure tt
  write_contents_loop contents (id ∷ rest) ids =
      let next = λ (cs : List Bytes). write_contents_loop cs rest ids in
      do
        b ← get_block_mut id ids
        λ w. elim contents [
          | [] ↦ (panic, w)
          | content ∷ more ↦
              (do
                assert (leb (length content) block_size)
                put_block id (modify_bytes (splice 0 content) b)
                next more)
                w
        ]

  unfoldable pub write_file_content_to_blocks : List Bytes → List ℕ → M B (Unit {0})
  write_file_content_to_blocks contents ids = do
    read_blocks_to_cache ids
    write_contents_loop contents ids ids

  unfoldable pub clear_loop : List ℕ → List ℕ → M B (Unit {0})
  clear_loop [] ids = pure tt
  clear_loop (id ∷ rest) ids = do
    b ← get_block_mut id ids
    put_block id (record b { bytes = replicate block_size 0; modified = true })
    clear_loop rest ids

  unfoldable pub clear_blocks : List ℕ → M B (Unit {0})
  clear_blocks ids = do read_blocks_to_cache ids; clear_loop ids ids

module _ {B T : Type 0} (codec : Codec T) where
  unfoldable pub write_blocks_loop : List (T × ℕ × ℕ) → List ℕ → M B (Unit {0})
  write_blocks_loop [] ids = pure tt
  write_blocks_loop ((object, id, start) ∷ args) ids = do
    b ← get_block_mut id ids
    bs ← or_fail (codec.to_bytes object) Error.cannot_serialize
    assert (leb (length bs + start) block_size)
    put_block id (modify_bytes (splice start bs) b)
    write_blocks_loop args ids

  unfoldable pub write_blocks : List (T × ℕ × ℕ) → M B (Unit {0})
  write_blocks args = do
    let ids = map (λ a. a.1) args
    read_blocks_to_cache ids
    write_blocks_loop args ids

  unfoldable pub write_block : T → ℕ → ℕ → M B (Unit {0})
  write_block object id start = write_blocks ((object, id, start) ∷ [])

  -- `deserialize` of block.rs
  abbrev pub deserialize : Bytes → M B T
  deserialize bs = or_fail (codec.of_bytes bs) Error.cannot_deserialize

-- `OpenOptions::open`, `seek` and `write_all` of a block at its own number.
abbrev pub write_back : Block → Option Disk → Outcome Disk
write_back b none = err Error.fs_file_missing
write_back b (some d) = ok (write_all b.block_id b.bytes d)

-- The loop of `sync_and_clear_cache` over the cached blocks, which writes those that were modified.
unfoldable pub sync_loop : BlockCache → Option Disk → Outcome (Unit {0}) × Option Disk
sync_loop [] file = (ok tt, file)
sync_loop ((k, b) ∷ c) file = elim b.modified [
  | false ↦ sync_loop c file
  | true ↦ elim (write_back b file) [
    | ok d ↦ sync_loop c (some d)
    | err e ↦ (err e, file)
    | panic ↦ (panic, file)
    | diverge ↦ (diverge, file)
  ]
]

module _ {B : Type 0} where
  unfoldable pub sync_and_clear_cache : M B (Unit {0})
  sync_and_clear_cache w =
      let (r, file) = sync_loop w.manager.block_cache w.disk in
      elim r [
        | ok _ ↦ (ok tt, with_cache (record w { disk = file }) [])
        | other ↦ (other, record w { disk = file })
      ]

-- `is_sync_scheduled`, `is_sync_exit`, `is_sync_immediately`
pub is_sync_scheduled : BlockCacheManager → Bool
is_sync_scheduled m = elim (m.cache_method) [ CacheMethod.scheduled ↦ true | _ ↦ false ]

pub is_sync_exit : BlockCacheManager → Bool
is_sync_exit m = elim (m.cache_method) [ CacheMethod.on_exit ↦ true | _ ↦ false ]

pub is_sync_immediately : BlockCacheManager → Bool
is_sync_immediately m = elim (m.cache_method) [ CacheMethod.immediately ↦ true | _ ↦ false ]
