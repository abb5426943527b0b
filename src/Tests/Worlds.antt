-- ===== src/Tests/Worlds.antt =====
-- A small host's file, and crates that write one byte of each struct.
use simple_fs_rust.Base.{
  ℕ, ltb, length, ◌≡◌, if◌then◌else◌, length-replicate, Bool, codes, replicate, Bytes, refl, [],
  ◌∷◌, true, false, none, some,
}
use simple_fs_rust.State.{CacheMethod, InodeType, Block, Disk, Inode, User, World}
use simple_fs_rust.Cache.{BlockCache}
use simple_fs_rust.Cache.Buffers.{Coherent}
use simple_fs_rust.Cache.View.{insert-IsCoherent, IsCoherent}
use simple_fs_rust.Constants.{block_size}
use simple_fs_rust.Inode.{rdwr, fresh_inode}
use simple_fs_rust.Tests.Bits.{read_bits, Bits}

abbrev zeros : Bytes
zeros = replicate block_size 0

abbrev pub disk : Disk
disk = record { len = 1000; blocks = λ id. zeros }

pub empty-IsCoherent : IsCoherent [] (some disk)
empty-IsCoherent = record {
  distinct = tt;
  entries = λ id b e. cc e;
  block_sizes = λ id bs e. sizes (ltb id 1000) bs e;
}
  where
    sizes :
        (b : Bool) (bs : Bytes)
        → (if b then some zeros else none) ≡ some bs
        → length bs ≡ block_size
    sizes true bs e = let r : zeros ≡ bs = cc e in rw (← r) (length-replicate {A = ℕ} block_size 0)
    sizes false bs e = absurd (cc e)

-- A block that was changed and not written yet.
abbrev dirty_block : Block
dirty_block = record { block_id = 20; bytes = replicate block_size 7; modified = true }

abbrev pub cache : BlockCache
cache = (20, dirty_block) ∷ []

cache-IsCoherent : IsCoherent cache (some disk)
cache-IsCoherent = insert-IsCoherent [] (some disk) empty-IsCoherent 20 dirty_block (record {
  number = refl;
  size = length-replicate {A = ℕ} block_size 7;
  on_disk = λ p. cc p;
  clean = λ p. cc p;
})

abbrev pub no_inode : Inode
no_inode = fresh_inode InodeType.file 3 rdwr 0 1 1 0

abbrev pub users : User
users = record {
  info = (codes "root", (codes "admin", record { gid = 0; uid = 0 })) ∷ [];
  max_id = 1;
}

abbrev pub new_users : User
new_users = record {
  info =
      (codes "root", (codes "admin", record { gid = 0; uid = 0 }))
      ∷ ((codes "eve", (codes "pw", record { gid = 1; uid = 1 })) ∷ []);
  max_id = 2;
}

abbrev pub world : World (Bits 8)
world = record {
  bitmaps = record {
    inodes = read_bits 8 1 ∷ [];
    datas = read_bits 8 3 ∷ [];
    last_inode_byte_pos = 0;
    last_data_byte_pos = 0;
  };
  manager = record { block_cache = cache; cache_method = CacheMethod.on_exit };
  sfs = record { root_inode = no_inode; user_infos = users };
  disk = some disk;
  clock = 0;
}

pub world-Coherent : Coherent world
world-Coherent = cache-IsCoherent
