-- ===== src/Cache/Write.antt =====
-- Writing through the cache of simdisk/src/block.rs writes the store: `write_block` and `clear_blocks`.
use simple_fs_rust.Base.{
  leb, List, ap, refl, le→leb, length-splice, ◌∙◌, [], ◌∷◌, splice, inr, ◌==◌, ◌≤◌, if◌then◌else◌,
  inl, ◌+◌, arith, Option-cases, length, none, some, ◌≡◌, ◌≢◌, true, Bytes, Option, ℕ,
}
use simple_fs_rust.State.{and_then, Codec, ok, Outcome, Disk, Block, World}
use simple_fs_rust.Cache.{
  insert, with_cache, get_block_mut, lookup, write_blocks_loop, write_blocks, BlockCache,
  write_block,
}
use simple_fs_rust.Cache.Buffers.{store, Coherent}
use simple_fs_rust.Cache.Read.{read_blocks_to_cache-Loaded}
use simple_fs_rust.Cache.View.{
  view-size, lookup-insert, view-insert, insert-IsCoherent, view, IsCoherent,
}
use simple_fs_rust.Constants.{block_size}

-- The store with the bytes of one block replaced.
abbrev pub update : (ℕ → Option Bytes) → ℕ → Bytes → ℕ → Option Bytes
update v id bs j = if id == j then some bs else v j

abbrev pub dirty : Block → Bytes → Block
dirty b bs = record b { bytes = bs; modified = true }

-- A cached block changed in place.
pub record Puts (disk : Option Disk) (c : BlockCache) (id : ℕ) (bs : Bytes) (c' : BlockCache)
    : Type 0 where
  pub coherent : IsCoherent c' disk
  pub new_view : (j : ℕ) → view c' disk j ≡ update (view c disk) id bs j
  pub still_cached : (j : ℕ) → lookup j c ≢ none → lookup j c' ≢ none

pub dirty-Puts :
    (disk : Option Disk) (c : BlockCache) (id : ℕ) (b : Block) (bs : Bytes)
    → IsCoherent c disk
    → lookup id c ≡ some b
    → length bs ≡ block_size
    → Puts disk c id bs (insert id (dirty b bs) c)
dirty-Puts disk c id b bs h e size = record {
  coherent = insert-IsCoherent c disk h id (dirty b bs) (record {
    number = (h.entries id b e).number;
    size = size;
    on_disk = (h.entries id b e).on_disk;
    clean = λ p. cc p;
  });
  new_view = λ j. view-insert c disk id j (dirty b bs);
  still_cached = λ j p q. ground (arith, lookup-insert id j (dirty b bs) c);
}

cached_bytes :
    (c : BlockCache) (disk : Option Disk) (id : ℕ) (old : Bytes)
    → lookup id c ≢ none
    → view c disk id ≡ some old
    → (b : Block) × (lookup id c ≡ some b) × (b.bytes ≡ old)
cached_bytes c disk id old cached e = elim (Option-cases (lookup id c)) [
  | inl q ↦ absurd (cached q)
  | inr (b, q) ↦ let r : some b.bytes ≡ some old = rw q at e in (b, q, cc r)
]

module _ {B : Type 0} where
  pub get_block_mut_cached :
      (id : ℕ) (ids : List ℕ) (w : World B) (b : Block)
      → lookup id w.manager.block_cache ≡ some b
      → get_block_mut id ids w ≡ (ok b, w)
  unfolding get_block_mut
  get_block_mut_cached id ids w b e = rw (e, get_block_mut) refl

  write_blocks_loop_one :
      {T : Type 0} (codec : Codec T) (object : T) (id start : ℕ) (bs : Bytes) (ids : List ℕ)
      (w : World B) (b : Block)
      → lookup id w.manager.block_cache ≡ some b
      → codec.to_bytes object ≡ some bs
      → leb (length bs + start) block_size ≡ true
      → write_blocks_loop codec ((object, id, start) ∷ []) ids w ≡ (
        ok tt,
        with_cache w (insert id (dirty b (splice start bs b.bytes)) w.manager.block_cache),
      )
  unfolding write_blocks_loop
  write_blocks_loop_one codec object id start bs ids w b e enc fits =
      rw (get_block_mut_cached id ids w b e, and_then)
        (rw (enc, and_then) (rw (fits, and_then) refl))

  -- A call that writes: it succeeds, changes nothing but the cache, keeps the invariant, and leaves
  -- the store `v`.
  abbrev pub Writes : World B → (ℕ → Option Bytes) → Outcome (Unit {0}) × World B → Type 0
  Writes w v p =
      (c : BlockCache) × (p ≡ (ok tt, with_cache w c))
      × IsCoherent c w.disk
      × ((j : ℕ) → view c w.disk j ≡ v j)

  -- In a coherent world, where the block is in the store and the encoded object fits behind
  -- `start`, `write_block` succeeds and puts the object's bytes there; the other bytes of the block,
  -- the other blocks and everything but the cache stay the same.
  pub write_block-Writes :
      {T : Type 0} (codec : Codec T) (object : T) (id start : ℕ) (bs old : Bytes) (w : World B)
      → Coherent w
      → codec.to_bytes object ≡ some bs
      → length bs + start ≤ block_size
      → store w id ≡ some old
      → Writes w (update (store w) id (splice start bs old)) (write_block codec object id start w)
  unfolding write_block write_blocks
  write_block-Writes codec object id start bs old w h enc fits found =
      let there : store w id ≢ none = ground arith in
      let (c, e, k, cached) = read_blocks_to_cache-Loaded (id ∷ []) w h (there, tt) in
      let (b, q, same) = cached_bytes c w.disk id old cached.0 (k.same_view id ∙ found) in
      let size : length (splice start bs old) ≡ block_size =
        let old_size = view-size w.manager.block_cache w.disk id old h found in
        length-splice start bs old (omega arith) ∙ old_size in
      let p = dirty-Puts w.disk c id b (splice start bs old) k.coherent q size in
      (
        insert id (dirty b (splice start bs old)) c,
        rw (e, and_then)
            (write_blocks_loop_one codec object id start bs (id ∷ []) (with_cache w c) b q enc
                (le→leb _ _ fits)
              ∙ ap (λ old'. (ok tt, with_cache w (insert id (dirty b (splice start bs old')) c)))
                  same),
        p.coherent,
        λ j.
            p.new_view j
            ∙ ap (λ o. if id == j then some (splice start bs old) else o) (k.same_view j),
      )
