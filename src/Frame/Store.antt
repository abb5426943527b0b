-- ===== src/Frame/Store.antt =====
-- What the commands that only read leave as it was: everything but the cache of
-- simdisk/src/block.rs, and the store behind it.
use simple_fs_rust.Base.{
  sym, inl, inr, Option-cases, Option, ℕ, List, ap, Bytes, ◌∙◌, ◌≡◌, [], ◌∷◌, true, some, refl,
}
use mathlib.Core.Path.{subst}
use simple_fs_rust.State.{Disk, Outcome, External, World}
use simple_fs_rust.Cache.{
  fresh_block, insert, lookup, BlockCache, with_cache, read_blocks_loop, read_blocks_to_cache,
}
use simple_fs_rust.Cache.Buffers.{store, Coherent}
use simple_fs_rust.Cache.Read.{fresh-Keeps, read_file_lem, Keeps-refl, Keeps-trans, Keeps}
use simple_fs_rust.Cache.View.{view, IsCoherent}
use simple_fs_rust.Command.{do_command, Command}
use simple_fs_rust.Frame.{Within}
use simple_fs_rust.Frame.Dispatch.{query-Within, do_command-Within, is_query, command_of}
use simple_fs_rust.Frame.Reading.{IsReadFrame}
use simple_fs_rust.Syscall.{Client}

-- Reading blocks, whether or not they are there.
pub read_blocks_loop-Keeps :
    (ids : List ℕ) (disk : Option Disk) (c : BlockCache)
    → IsCoherent c disk
    → Keeps disk c (read_blocks_loop ids disk c).1
unfolding read_blocks_loop
read_blocks_loop-Keeps [] disk c h = Keeps-refl disk c h
read_blocks_loop-Keeps (id ∷ ids) disk c h = elim (Option-cases (lookup id c)) [
  | inr (b, e) ↦ rw (e, read_blocks_loop) (read_blocks_loop-Keeps ids disk c h)
  | inl e ↦ elim (read_file_lem id disk) [
    | inl (bs, found, got) ↦
        let k = fresh-Keeps disk c id bs h e found in
        rw (e, got, read_blocks_loop)
          (Keeps-trans disk c (insert id (fresh_block id bs) c) _ k
            (read_blocks_loop-Keeps ids disk (insert id (fresh_block id bs) c) k.coherent))
    | inr (missing, (x, got)) ↦ rw (e, got, read_blocks_loop) (Keeps-refl disk c h)
  ]
]

module _ {B : Type 0} where
  -- Nothing but the cache changed, and a coherent cache kept its invariant and its store.
  pub record SameStore (w w' : World B) : Type 0 where
    pub rest_lem : w' ≡ with_cache w w'.manager.block_cache
    pub keeps : Coherent w → Keeps w.disk w.manager.block_cache w'.manager.block_cache

  SameStore-trans : (u v w : World B) → SameStore u v → SameStore v w → SameStore u w
  SameStore-trans u v w h k = record {
    rest_lem = k.rest_lem ∙ ap (λ x. with_cache x w.manager.block_cache) h.rest_lem;
    keeps = λ i.
        let same : v.disk ≡ u.disk = ap (λ x. x.disk) h.rest_lem in
        let later =
          subst
            (λ d.
              IsCoherent v.manager.block_cache d
              → Keeps d v.manager.block_cache w.manager.block_cache)
            same k.keeps in
        Keeps-trans u.disk u.manager.block_cache v.manager.block_cache w.manager.block_cache
          (h.keeps i) (later ((h.keeps i).coherent));
  }

  pub SameStore-IsReadFrame : IsReadFrame SameStore
  unfolding read_blocks_to_cache
  SameStore-IsReadFrame = record {
    frame = record {
      refl_lem = λ w. record { rest_lem = refl; keeps = Keeps-refl w.disk w.manager.block_cache };
      trans_lem = SameStore-trans;
    };
    reads = loaded;
  }
    where
      loaded : (ids : List ℕ) → Within SameStore (read_blocks_to_cache ids)
      loaded ids = record {
        run = λ w. record {
          rest_lem = refl;
          keeps = read_blocks_loop-Keeps ids w.disk w.manager.block_cache;
        };
      }

module _ {B : Type 0} (ext : External B) where
  -- In a coherent world a command that only lists, prints or changes the directory of the client
  -- (`dir`, `info`, `users`, `cd`, `cat`), however it ends, changes nothing but the cache: the cache stays
  -- coherent and each block reads as before.
  pub do_command-SameStore :
      (host : Bytes → Outcome Bytes) (fuel : ℕ) (args : List Bytes) (client : Client) (w : World B)
      (c : Command)
      → command_of args ≡ some c
      → is_query c ≡ true
      → Coherent w
      → let w' = (do_command ext host fuel args client w).1 in
        (w' ≡ with_cache w w'.manager.block_cache)
        × Coherent w'
        × ((j : ℕ) → store w' j ≡ store w j)
  do_command-SameStore host fuel args client w c e q h =
      let s = whole.run w in
      let w' = (do_command ext host fuel args client w).1 in
      let k = s.keeps h in
      let same : w.disk ≡ w'.disk = sym (ap (λ x. x.disk) s.rest_lem) in
      (
        s.rest_lem,
        subst (λ d. IsCoherent w'.manager.block_cache d) same k.coherent,
        λ j. ap (λ d. view w'.manager.block_cache d j) (sym same) ∙ k.same_view j,
      )
    where
      whole : Within SameStore (do_command ext host fuel args client)
      whole =
          do_command-Within ext host fuel SameStore-IsReadFrame.frame args client
            (λ d username cwd e'.
              let r : some d ≡ some c = sym e' ∙ e in
              query-Within ext host fuel SameStore-IsReadFrame username cwd client d
                (ap is_query (cc r) ∙ q))
