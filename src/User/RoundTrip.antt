-- ===== src/User/RoundTrip.antt =====
-- simdisk/src/user.rs: the table of users that was written is read.
use simple_fs_rust.Base.{none, ◌≢◌, ◌≤◌, ◌+◌, length, ◌++◌, some, ◌≡◌, Bytes, refl}
use simple_fs_rust.State.{unwrapped, and_then, ok, World, User, External}
use simple_fs_rust.Cache.{with_cache, BlockCache}
use simple_fs_rust.Cache.Buffers.{Reads, store, Coherent}
use simple_fs_rust.Cache.RoundTrip.{write_block-get_rest}
use simple_fs_rust.Constants.{block_size, user_start_byte}
use simple_fs_rust.User.{set_users, add_user, read_users, cache_users, sign_up}

module _ {B : Type 0} (ext : External B) where
  -- In a coherent world with block 0 in the store, where signing up makes the table `users'` of the table in
  -- memory, its encoding fits into the block and decoding does not mind what follows, `sign_up`
  -- succeeds, puts this table into memory and writes it: the `read` that follows returns it and only
  -- reads.
  pub sign_up-read_users :
      (name password : Bytes) (users' : User) (bs : Bytes) (w : World B)
      → Coherent w
      → add_user name password w.sfs.user_infos ≡ ok users'
      → ext.user_codec.to_bytes users' ≡ some bs
      → ((rest : Bytes) → ext.user_codec.of_bytes (bs ++ rest) ≡ some users')
      → length bs + user_start_byte ≤ block_size
      → store w 0 ≢ none
      → (c : BlockCache) × (sign_up ext name password w
          ≡ (ok tt, with_cache (set_users ext users' w).1 c))
        × Reads
            (with_cache (set_users ext users' w).1 c)
            users'
            (read_users ext (with_cache (set_users ext users' w).1 c))
  unfolding sign_up cache_users read_users
  sign_up-read_users name password users' bs w h added enc dec fits there =
      let (c, e, coherent, rest, (d, e', k)) =
        write_block-get_rest ext.user_codec users' 0 user_start_byte bs (set_users ext users' w).1 h
          enc fits there in
      (
        c,
        rw (added, and_then) (rw (e, unwrapped, and_then) refl),
        (d, rw (e', and_then) (rw (dec rest) refl), k),
      )
