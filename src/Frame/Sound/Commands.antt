-- ===== src/Frame/Sound/Commands.antt =====
-- Formatting, signing up and the commands of simdisk/src/main.rs keep the invariant of the state.
use simple_fs_rust.Base.{
  ◌/◌, ltb, length-replicate, length, ◌≡◌, replicate, List, if◌then◌else◌, Bool, ℕ, Bytes, [], true,
  false, none, some,
}
use simple_fs_rust.State.{
  World, User, unwrap, Outcome, SimpleFileSystem, IsBitmap8, External, ◌>>=◌, ◌>>◌,
}
use simple_fs_rust.Bitmap.{read_bitmaps}
use simple_fs_rust.Cache.{with_cache, sync_and_clear_cache}
use simple_fs_rust.Cache.View.{IsCoherent}
use simple_fs_rust.Command.{do_command}
use simple_fs_rust.Constants.{fs_size_bytes, block_size}
use simple_fs_rust.Frame.{Within->>=, Within-unwrap, Within->>, Within-lift, frame_rules, Within}
use simple_fs_rust.Frame.Changing.{new_root-Within, write_block-Within}
use simple_fs_rust.Frame.Commands.{run_command-Within}
use simple_fs_rust.Frame.Dispatch.{do_command-Within}
use simple_fs_rust.Frame.Sound.{IsSound, BothReady, KeepsSound-IsFrame, KeepsSound}
use simple_fs_rust.Frame.Sound.Bitmaps.{KeepsSound-IsCommandFrame, KeepsSound-IsWriteFrame}
use simple_fs_rust.Frame.Sound.Reading.{read_bitmaps-Within}
use simple_fs_rust.Inode.{new_root}
use simple_fs_rust.SimpleFs.{set_sfs, create_fs_file, empty_disk, force_clear, sign_up_sfs}
use simple_fs_rust.SuperBlock.{init_super_block}
use simple_fs_rust.Syscall.{Client}
use simple_fs_rust.User.{set_users, add_user, sign_up, cache_users, init_users}
use simple_fs_rust.Frame.Sound

pub empty_disk-IsCoherent : IsCoherent [] (some empty_disk)
empty_disk-IsCoherent = record {
  distinct = tt;
  entries = λ id b e. cc e;
  block_sizes = λ id bs e. sizes (ltb id (fs_size_bytes / block_size)) bs e;
}
  where
    sizes :
        (b : Bool) (bs : Bytes)
        → (if b then some (replicate block_size 0) else none) ≡ some bs
        → length bs ≡ block_size
    sizes true bs e =
        let r : replicate block_size 0 ≡ bs = cc e in
        rw (← r) (length-replicate {A = ℕ} block_size 0)
    sizes false bs e = absurd (cc e)

module _ {B : Type 0} (ext : External B) (laws : IsBitmap8 (ext.bits)) where
  cache_users-Within : (users : User) → Within KeepsSound (cache_users ext users)
  unfolding cache_users
  cache_users-Within users =
      search
        (frame_rules, KeepsSound-IsFrame, write_block-Within ext (KeepsSound-IsWriteFrame ext laws))
        depth 8

  init_users-Within : Within KeepsSound (init_users ext)
  unfolding init_users
  init_users-Within = search (frame_rules, KeepsSound-IsFrame, cache_users-Within) depth 8

  init_super_block-Within : Within KeepsSound (init_super_block ext)
  unfolding init_super_block
  init_super_block-Within =
      search
        (frame_rules, KeepsSound-IsFrame, write_block-Within ext (KeepsSound-IsWriteFrame ext laws))
        depth 8

  set_sfs-Within : (sfs : SimpleFileSystem) → Within KeepsSound (set_sfs ext sfs)
  set_sfs-Within sfs = record {
    run = λ w. record { keep = λ s. record { coherent = s.coherent; ready = s.ready } };
  }

  -- The end of `force_clear` behind the bitmaps, on the new file and an empty cache.
  pub fill_rest-Within : Within KeepsSound (do
    init_super_block ext
    root ← new_root ext
    users ← init_users ext
    unwrap (sync_and_clear_cache {B = B})
    set_sfs ext (record { root_inode = root; user_infos = users }))
  fill_rest-Within =
      let F = KeepsSound-IsFrame {B = B} in
      Within->> F (init_super_block ext) _ init_super_block-Within (
        Within->>= F (new_root ext) _ (new_root-Within ext (KeepsSound-IsWriteFrame ext laws))
          λ root. Within->>= F (init_users ext) _ init_users-Within λ users.
            Within->> F (unwrap sync_and_clear_cache) _
              (Within-unwrap F sync_and_clear_cache Sound.syncs-Within)
              (set_sfs-Within (record { root_inode = root; user_infos = users })))

  -- Formatting makes the cache coherent whatever it was before.
  force_clear-IsSound : (w : World B) → BothReady w.bitmaps → IsSound (force_clear ext w).1
  unfolding force_clear create_fs_file
  force_clear-IsSound w h =
      ((Within->> KeepsSound-IsFrame (unwrap (read_bitmaps ext)) _
            (Within-unwrap KeepsSound-IsFrame (read_bitmaps ext) (read_bitmaps-Within ext))
            fill_rest-Within).run
          (with_cache (record w { disk = some empty_disk }) [])).keep
        (record { coherent = empty_disk-IsCoherent; ready = h })

  pub force_clear-Within : Within KeepsSound (force_clear ext)
  force_clear-Within = record { run = λ w. record { keep = λ s. force_clear-IsSound w s.ready } }

  pub sign_up_sfs-Within :
      (username password : Bytes) → Within KeepsSound (sign_up_sfs ext username password)
  unfolding sign_up_sfs sign_up
  sign_up_sfs-Within username password =
      search (frame_rules, KeepsSound-IsFrame, cache_users-Within, set_users-Within, added-Within)
        depth 12
    where
      set_users-Within : (users : User) → Within {B = B} KeepsSound (set_users ext users)
      set_users-Within users = record {
        run = λ w. record { keep = λ s. record { coherent = s.coherent; ready = s.ready } };
      }

      added-Within :
          (users : User)
          → Within {B = B} KeepsSound {A = User} (λ w. (add_user username password users, w))
      added-Within users = Within-lift KeepsSound-IsFrame (add_user username password users)

  -- Every command of a client, however it ends, keeps the invariant: from a state whose cache agrees with
  -- the host's file and whose bitmaps can be searched, it leads to such a state.
  pub do_command-IsSound :
      (host : Bytes → Outcome Bytes) (fuel : ℕ) (args : List Bytes) (client : Client) (w : World B)
      → IsSound w
      → IsSound (do_command ext host fuel args client w).1
  do_command-IsSound host fuel args client w s = (whole.run w).keep s
    where
      whole : Within KeepsSound (do_command ext host fuel args client)
      whole = do_command-Within ext host fuel KeepsSound-IsFrame args client (λ c username cwd e.
          run_command-Within ext (KeepsSound-IsCommandFrame ext laws) host fuel username cwd client
            c (λ q. force_clear-Within))
