-- ===== src/Objects/Listing.antt =====
-- simdisk/src/block.rs: the blocks that `get_all_blocks` lists, against the store.
use simple_fs_rust.Base.{
  zero, suc, sym, ◌==◌, ◌∙◌, ap, replicate, Bool-cases, some, ◌++◌, take_all, inr, lt→ltb, inl,
  Option-cases, arith, ◌≡◌, map, ◌<◌, none, length, ◌≢◌, Bytes, List, Option, ℕ, refl, [], ◌∷◌,
}
use mathlib.Core.Path.{subst}
use simple_fs_rust.State.{and_then, BlockLevel, Inode, External, World}
use simple_fs_rust.Cache.Buffers.{
  get_blocks_buffers-Reads, Reads, IsRange, or_empty, range_of, store, Coherent,
}
use simple_fs_rust.Cache.Read.{All}
use simple_fs_rust.Cache.View.{view-size}
use simple_fs_rust.Constants.{block_size, direct_block_num}
use simple_fs_rust.Objects.{
  block_is_empty, retain_valid, whole_block, zip_level, direct_prefix, LeveledBlock, get_all_blocks,
  get_all_valid_blocks,
}
use simple_fs_rust.Objects.Blocks.{block_is_empty-zeros}

-- The blocks with these ids, as the store has them.
abbrev pub listed : (ℕ → Option Bytes) → List ℕ → List LeveledBlock
listed v [] = []
listed v (id ∷ ids) = (BlockLevel.direct, id, or_empty (v id)) ∷ listed v ids

AllRanges :
    (v : ℕ → Option Bytes) (ids : List ℕ)
    → All (λ id. v id ≢ none) ids
    → All (IsRange v) (map whole_block ids)
AllRanges v [] h = tt
AllRanges v (id ∷ ids) h = ((h.0, omega arith, omega arith), AllRanges v ids h.1)

module _ {B : Type 0} where
  whole :
      (w : World B) (id : ℕ)
      → Coherent w
      → store w id ≢ none
      → range_of (store w) (whole_block id) ≡ or_empty (store w id)
  whole w id h there = elim (Option-cases (store w id)) [
    | inl q ↦ absurd (there q)
    | inr (bs, q) ↦
        let size = view-size w.manager.block_cache w.disk id bs h q in
        rw q (take_all block_size bs (omega (arith, size)))
  ]

  zip_level-listed :
      (w : World B) (ids : List ℕ)
      → Coherent w
      → All (λ id. store w id ≢ none) ids
      → zip_level BlockLevel.direct ids (map (range_of (store w)) (map whole_block ids))
        ≡ listed (store w) ids
  zip_level-listed w [] h there = refl
  zip_level-listed w (id ∷ ids) h there =
      rw (whole w id h there.0, zip_level-listed w ids h there.1) refl

-- Of the blocks with these ids, those with a byte other than 0.
pub data KeepsBlocks (v : ℕ → Option Bytes) : List ℕ → List LeveledBlock → Type 0 where
  done : KeepsBlocks v [] []
  skip :
      {id : ℕ} {ids : List ℕ} {out : List LeveledBlock} (bs : Bytes)
      → v id ≡ some bs
      → bs ≡ replicate (length bs) 0
      → KeepsBlocks v ids out
      → KeepsBlocks v (id ∷ ids) out
  keep :
      {id : ℕ} {ids : List ℕ} {out : List LeveledBlock} (bs : Bytes)
      → v id ≡ some bs
      → bs ≢ replicate (length bs) 0
      → KeepsBlocks v ids out
      → KeepsBlocks v (id ∷ ids) ((BlockLevel.direct, id, bs) ∷ out)

retain_valid-KeepsBlocks :
    (v : ℕ → Option Bytes) (ids : List ℕ)
    → All (λ id. v id ≢ none) ids
    → KeepsBlocks v ids (retain_valid (listed v ids))
retain_valid-KeepsBlocks v [] h = done
retain_valid-KeepsBlocks v (id ∷ ids) h = elim (Option-cases (v id)) [
  | inl q ↦ absurd (h.0 q)
  | inr (bs, q) ↦ elim (Bool-cases (block_is_empty bs)) [
    | inl zeros ↦
        rw (q, zeros)
          (skip bs q ((block_is_empty-zeros bs).0 zeros) (retain_valid-KeepsBlocks v ids h.1))
    | inr other ↦
        rw (q, other)
          (keep bs q (λ e. let zeros = (block_is_empty-zeros bs).1 e in cc (other, zeros))
            (retain_valid-KeepsBlocks v ids h.1))
  ]
]

direct_prefix_of :
    (n : ℕ) (ids rest : List ℕ)
    → All (λ id. id ≢ 0) ids
    → length ids < n
    → direct_prefix n (ids ++ (0 ∷ rest)) ≡ ids
direct_prefix_of zero ids rest h few = absurd (omega arith)
direct_prefix_of (suc n) [] rest h few = refl
direct_prefix_of (suc n) (id ∷ ids) rest h few = elim (Bool-cases (id == 0)) [
  | inl e ↦ absurd (h.0 (ground arith))
  | inr e ↦ rw e (ap (λ l. id ∷ l) (direct_prefix_of n ids rest h.1 (omega arith)))
]

module _ {B : Type 0} (ext : External B) where
  get_all_blocks_direct :
      (inode : Inode) (w : World B)
      → Coherent w
      → length (direct_prefix direct_block_num inode.addr) < direct_block_num
      → All (λ id. store w id ≢ none) (direct_prefix direct_block_num inode.addr)
      → Reads w
          (listed (store w) (direct_prefix direct_block_num inode.addr))
          (get_all_blocks ext inode w)
  unfolding get_all_blocks
  get_all_blocks_direct inode w h few there =
      let ids = direct_prefix direct_block_num inode.addr in
      let (c, e, k) =
        get_blocks_buffers-Reads (map whole_block ids) w h (AllRanges (store w) ids there) in
      (c, rw (e, and_then) (rw (lt→ltb _ _ few, zip_level-listed w ids h there) refl), k)

  -- In a coherent world and for an inode whose addresses are fewer than eight ids other than 0 and then a 0, where
  -- the store has the blocks with these ids, `get_all_valid_blocks` succeeds and changes nothing but
  -- the cache; it returns, in the order of the ids, each block that has a byte other than 0, with its
  -- id and what the store has there, and leaves out the blocks of zeros.
  pub get_all_valid_blocks-Reads :
      (inode : Inode) (ids rest : List ℕ) (w : World B)
      → Coherent w
      → inode.addr ≡ ids ++ (0 ∷ rest)
      → All (λ id. id ≢ 0) ids
      → length ids < direct_block_num
      → All (λ id. store w id ≢ none) ids
      → (out : List LeveledBlock) × KeepsBlocks (store w) ids out
        × Reads w out (get_all_valid_blocks ext inode w)
  unfolding get_all_valid_blocks
  get_all_valid_blocks-Reads inode ids rest w h layout ids_set few there =
      let same : direct_prefix direct_block_num inode.addr ≡ ids =
        ap (direct_prefix direct_block_num) layout
        ∙ direct_prefix_of direct_block_num ids rest ids_set few in
      let (c, e, k) =
        get_all_blocks_direct inode w h (subst (λ l. length l < direct_block_num) (sym same) few)
          (subst (All (λ id. store w id ≢ none)) (sym same) there) in
      (
        retain_valid (listed (store w) ids),
        retain_valid-KeepsBlocks (store w) ids there,
        (c, rw (e, and_then) (rw same refl), k),
      )
