-- ===== src/Cache/View.antt =====
-- The abstract store behind the block cache of simdisk/src/block.rs: a block is what the cache has
-- of it, or else what the host's file has. The invariant of the cache against the file.
use simple_fs_rust.Base.{
  ℕ, ◌==◌, ◌≡◌, ◌≢◌, ◌∙◌, refl, sym, false, [], ◌∷◌, Option, none, some, if◌then◌else◌, length,
  arith, inl, inr, Bool-cases, ==_iff, Bytes, ltb, Option-cases,
}
use mathlib.Core.Path.{subst}
use simple_fs_rust.Constants.{block_size}
use simple_fs_rust.State.{Block, Disk}
use simple_fs_rust.Cache.{BlockCache, lookup, insert}

-- The bytes of a block in the file.
abbrev pub disk_read : ℕ → Option Disk → Option Bytes
disk_read id none = none
disk_read id (some d) = if ltb id d.len then some (d.blocks id) else none

abbrev pub cached_or : Option Block → Option Bytes → Option Bytes
cached_or none o = o
cached_or (some b) o = some b.bytes

abbrev pub view : BlockCache → Option Disk → ℕ → Option Bytes
view c disk id = cached_or (lookup id c) (disk_read id disk)

abbrev pub Distinct : BlockCache → Type 0
Distinct [] = Unit
Distinct ((k, b) ∷ c) = (lookup k c ≡ none) × Distinct c

-- A cached block stands under its own number, is one block long and is in the file, with the same
-- bytes unless it was modified.
pub record IsEntry (disk : Option Disk) (id : ℕ) (b : Block) : Type 0 where
  pub number : b.block_id ≡ id
  pub size : length b.bytes ≡ block_size
  pub on_disk : disk_read id disk ≢ none
  pub clean : b.modified ≡ false → disk_read id disk ≡ some b.bytes

pub record IsCoherent (c : BlockCache) (disk : Option Disk) : Type 0 where
  pub distinct : Distinct c
  pub entries : (id : ℕ) (b : Block) → lookup id c ≡ some b → IsEntry disk id b
  pub block_sizes : (id : ℕ) (bs : Bytes) → disk_read id disk ≡ some bs → length bs ≡ block_size

pub lookup-insert :
    (k j : ℕ) (b : Block) (c : BlockCache)
    → lookup j (insert k b c) ≡ (if k == j then some b else lookup j c)
lookup-insert k j b [] = refl
lookup-insert k j b ((i, d) ∷ c) =
    ground (arith, ==_iff k j, ==_iff i k, ==_iff i j, lookup-insert k j b c)

pub insert-Distinct : (k : ℕ) (b : Block) (c : BlockCache) → Distinct c → Distinct (insert k b c)
insert-Distinct k b [] h = (refl, tt)
insert-Distinct k b ((i, d) ∷ c) h = elim (Bool-cases (i == k)) [
  | inl same ↦ rw same (let e : i ≡ k = (==_iff i k).0 same in (rw (← e) h.0, h.1))
  | inr ne ↦ rw ne (lookup-insert k i b c ∙ ground (arith, h.0), insert-Distinct k b c h.1)
]

-- A block put into the cache: the invariant, and the store.
module _ (c : BlockCache) (disk : Option Disk) (h : IsCoherent c disk) (id : ℕ) (b : Block)
    (e : IsEntry disk id b) where
  pub insert-IsCoherent : IsCoherent (insert id b c) disk
  insert-IsCoherent = record {
    distinct = insert-Distinct id b c h.distinct;
    entries = λ j d p. entry j d (sym (lookup-insert id j b c) ∙ p);
    block_sizes = h.block_sizes;
  }
    where
      entry :
          (j : ℕ) (d : Block) → (if id == j then some b else lookup j c) ≡ some d → IsEntry disk j d
      entry j d p = elim (Bool-cases (id == j)) [
        | inl same ↦
            let q : id ≡ j = (==_iff id j).0 same in
            let r : some b ≡ some d = rw same at p in
            let s : b ≡ d = cc r in
            subst (λ (x : Block). IsEntry disk j x) s (subst (λ (x : ℕ). IsEntry disk x b) q e)
        | inr ne ↦ h.entries j d (rw ne at p)
      ]

pub view-insert :
    (c : BlockCache) (disk : Option Disk) (id j : ℕ) (b : Block)
    → view (insert id b c) disk j ≡ (if id == j then some b.bytes else view c disk j)
view-insert c disk id j b = rw (lookup-insert id j b c) (ground arith)

-- The blocks of a coherent cache are in the file, one block long.
pub view-size :
    (c : BlockCache) (disk : Option Disk) (id : ℕ) (bs : Bytes)
    → IsCoherent c disk
    → view c disk id ≡ some bs
    → length bs ≡ block_size
view-size c disk id bs h e = elim (Option-cases (lookup id c)) [
  | inl q ↦ h.block_sizes id bs (rw q at e)
  | inr (b, q) ↦
      let r : some b.bytes ≡ some bs = rw q at e in
      let s : b.bytes ≡ bs = cc r in rw (← s) ((h.entries id b q).size)
]
