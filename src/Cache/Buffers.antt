-- ===== src/Cache/Buffers.antt =====
-- `get_blocks_buffers` of simdisk/src/block.rs reads the store: one pass of its loop is enough.
use simple_fs_rust.Base.{
  ℕ, ◌≤◌, ◌≡◌, ◌≢◌, ◌∙◌, refl, ap, true, List, [], ◌∷◌, Option, none, some, map, slice, leb, length,
  arith, inl, inr, Bytes, Option-cases, ◌&&◌,
}
use simple_fs_rust.State.{M, and_then, ◌>>=◌, World, Disk, Outcome, ok}
use simple_fs_rust.Cache.{
  BlockCache, lookup, collect, get_blocks_buffers_loop, get_blocks_buffers, get_block_buffer,
  with_cache,
}
use simple_fs_rust.Cache.Read.{Keeps-trans, Keeps-refl, All, Keeps, read_blocks_to_cache-Loaded}
use simple_fs_rust.Cache.View.{view, IsCoherent}
use simple_fs_rust.Constants.{block_size}

module _ {B : Type 0} where
  -- The store of a world: what a read of each block gives.
  abbrev pub store : World B → ℕ → Option Bytes
  store w = view w.manager.block_cache w.disk

  abbrev pub Coherent : World B → Type 0
  Coherent w = IsCoherent w.manager.block_cache w.disk

  -- A call that only reads: it returns `a` and changes nothing but the cache, which keeps the
  -- invariant and the store.
  abbrev pub Reads : {A : Type 0} → World B → A → Outcome A × World B → Type 0
  Reads w a p =
      (c : BlockCache) × (p ≡ (ok a, with_cache w c)) × Keeps w.disk w.manager.block_cache c

module _ {B : Type 0} where
  -- A call that reads, and one that reads after it.
  pub Reads-then :
      {A C : Type 0} (w : World B) (m : M B A) (f : A → M B C) (a : A) (x : C)
      → Reads w a (m w)
      → ((c : BlockCache)
          → Keeps w.disk w.manager.block_cache c
          → Reads (with_cache w c) x (f a (with_cache w c)))
      → Reads w x ((m >>= f) w)
  Reads-then w m f a x (c, e, k) next =
      let (d, e', k') = next c k in
      (d, rw (e, and_then) e', Keeps-trans w.disk w.manager.block_cache c d k k')

  pub Reads-pure : {A : Type 0} (w : World B) (a : A) → Coherent w → Reads w a (ok a, w)
  Reads-pure w a h = (w.manager.block_cache, refl, Keeps-refl w.disk w.manager.block_cache h)

abbrev pub or_empty : Option Bytes → Bytes
or_empty none = []
or_empty (some bs) = bs

-- The range that an argument of `get_blocks_buffers` names.
abbrev pub range_of : (ℕ → Option Bytes) → ℕ × ℕ × ℕ → Bytes
range_of v (id, start, end) = slice start end (or_empty (v id))

-- The block is in the store, and the range is inside it.
abbrev pub IsRange : (ℕ → Option Bytes) → ℕ × ℕ × ℕ → Type 0
IsRange v (id, start, end) = (v id ≢ none) × (start ≤ end) × (end ≤ block_size)

abbrev id_of : ℕ × ℕ × ℕ → ℕ
id_of a = a.0

collect_lem :
    (args : List (ℕ × ℕ × ℕ)) (c : BlockCache) (disk : Option Disk)
    → IsCoherent c disk
    → All (λ id. lookup id c ≢ none) (map id_of args)
    → All (IsRange (view c disk)) args
    → collect args c ≡ ok (some (map (range_of (view c disk)) args))
collect_lem [] c disk h cached inside = refl
collect_lem ((id, start, end) ∷ args) c disk h cached inside = elim (Option-cases (lookup id c)) [
  | inl e ↦ absurd (cached.0 e)
  | inr (b, e) ↦
      let size : length b.bytes ≡ block_size = (h.entries id b e).size in
      let test : (leb start end && leb end (length b.bytes)) ≡ true = ground (arith, inside.0) in
      rw (e, collect) (rw (test, collect_lem args c disk h cached.1 inside.1))
]

All-ids :
    (v : ℕ → Option Bytes) (args : List (ℕ × ℕ × ℕ))
    → All (IsRange v) args
    → All (λ id. v id ≢ none) (map id_of args)
All-ids v [] h = tt
All-ids v (a ∷ args) h = (h.0.0, All-ids v args h.1)

map_range :
    (v v' : ℕ → Option Bytes) (args : List (ℕ × ℕ × ℕ))
    → ((j : ℕ) → v' j ≡ v j)
    → map (range_of v') args ≡ map (range_of v) args
map_range v v' [] h = refl
map_range v v' ((id, start, end) ∷ args) h = rw (h id, map_range v v' args h)

All-IsRange :
    (v v' : ℕ → Option Bytes) (args : List (ℕ × ℕ × ℕ))
    → ((j : ℕ) → v' j ≡ v j)
    → All (IsRange v) args
    → All (IsRange v') args
All-IsRange v v' [] h a = tt
All-IsRange v v' ((id, start, end) ∷ args) h a =
    ((rw (h id) a.0.0, a.0.1, a.0.2), All-IsRange v v' args h a.1)

module _ {B : Type 0} where
  -- In a coherent world `get_blocks_buffers` ends in its first pass and returns the named ranges of
  -- the blocks of the store, where these are inside blocks of the store; the store stays the same,
  -- and nothing but the cache changes.
  pub get_blocks_buffers-Reads :
      (args : List (ℕ × ℕ × ℕ)) (w : World B)
      → Coherent w
      → All (IsRange (store w)) args
      → Reads w (map (range_of (store w)) args) (get_blocks_buffers args w)
  unfolding get_blocks_buffers get_blocks_buffers_loop
  get_blocks_buffers-Reads args w h inside =
      let (c, e, k, cached) =
        read_blocks_to_cache-Loaded (map id_of args) w h (All-ids (store w) args inside) in
      let found : collect args c ≡ ok (some (map (range_of (store w)) args)) =
        collect_lem args c w.disk k.coherent cached
          (All-IsRange (store w) (view c w.disk) args k.same_view inside)
        ∙ ap (λ bufs. ok (some bufs)) (map_range (store w) (view c w.disk) args k.same_view) in
      (c, rw e (rw (found, and_then)), k)

  -- So does `get_block_buffer`, for one range.
  pub get_block_buffer-Reads :
      (id start end : ℕ) (w : World B)
      → Coherent w
      → IsRange (store w) (id, start, end)
      → Reads w (range_of (store w) (id, start, end)) (get_block_buffer id start end w)
  unfolding get_block_buffer
  get_block_buffer-Reads id start end w h inside =
      let (c, e, k) = get_blocks_buffers-Reads ((id, start, end) ∷ []) w h (inside, tt) in
      (c, rw (e, and_then), k)
