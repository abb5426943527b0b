-- ===== src/Frame/Users.antt =====
-- The table of users, which `sign_up`, `init` and the formatting of simdisk/src change alone.
use simple_fs_rust.Base.{ap, ◌≢◌, ℕ, List, Bytes, ◌∙◌, ◌≡◌, some, refl}
use simple_fs_rust.State.{Outcome, External, World, ok, err, panic, diverge}
use simple_fs_rust.Cache.{sync_loop, read_blocks_to_cache, sync_and_clear_cache}
use simple_fs_rust.Command.{do_command, Command}
use simple_fs_rust.Frame.{Within, IsFrame}
use simple_fs_rust.Frame.Commands.{run_command-Within, IsCommandFrame}
use simple_fs_rust.Frame.Dispatch.{do_command-Within, command_of}
use simple_fs_rust.Frame.Puts.{cache_to_block-Within, IsPutFrame-IsWriteFrame, IsPutFrame}
use simple_fs_rust.Syscall.{Client}

module _ {B : Type 0} where
  pub record SameUsers (w w' : World B) : Type 0 where
    pub users_lem : w'.sfs.user_infos ≡ w.sfs.user_infos

  SameUsers-IsFrame : IsFrame SameUsers
  SameUsers-IsFrame = record {
    refl_lem = λ w. record { users_lem = refl };
    trans_lem = λ u v w h k. record { users_lem = k.users_lem ∙ h.users_lem };
  }

  reads_users : (ids : List ℕ) → Within SameUsers (read_blocks_to_cache {B = B} ids)
  unfolding read_blocks_to_cache
  reads_users ids = record { run = λ w. record { users_lem = refl } }

  synced_users :
      (w : World B) (r : Outcome (Unit {0}))
      → r ≡ (sync_loop w.manager.block_cache w.disk).0
      → SameUsers w (sync_and_clear_cache w).1
  unfolding sync_and_clear_cache
  synced_users w (ok u) e = rw (← e, sync_and_clear_cache) (record { users_lem = refl })
  synced_users w (err x) e = rw (← e, sync_and_clear_cache) (record { users_lem = refl })
  synced_users w panic e = rw (← e, sync_and_clear_cache) (record { users_lem = refl })
  synced_users w diverge e = rw (← e, sync_and_clear_cache) (record { users_lem = refl })

module _ {B : Type 0} (ext : External B) where
  SameUsers-IsCommandFrame : IsCommandFrame ext SameUsers
  SameUsers-IsCommandFrame = record {
    changing = IsPutFrame-IsWriteFrame ext putting;
    saves = cache_to_block-Within ext putting;
    syncs = record { run = λ w. synced_users w (sync_loop w.manager.block_cache w.disk).0 refl };
    roots = λ root. record { run = λ w. record { users_lem = refl } };
    methods = λ method. record { run = λ w. record { users_lem = refl } };
  }
    where
      putting : IsPutFrame ext SameUsers
      putting = record {
        reading = record { frame = SameUsers-IsFrame; reads = reads_users };
        puts = λ id b. record { run = λ w. record { users_lem = refl } };
        bitmaps = λ f. record { run = λ w. record { users_lem = refl } };
      }

  -- No command that a client sends changes the table of users, however it ends, unless its words are
  -- those of `formatting`.
  pub do_command-SameUsers :
      (host : Bytes → Outcome Bytes) (fuel : ℕ) (args : List Bytes) (client : Client) (w : World B)
      → command_of args ≢ some Command.formatting
      → (do_command ext host fuel args client w).1.sfs.user_infos ≡ w.sfs.user_infos
  do_command-SameUsers host fuel args client w h = (whole.run w).users_lem
    where
      whole : Within SameUsers (do_command ext host fuel args client)
      whole = do_command-Within ext host fuel SameUsers-IsFrame args client (λ c username cwd e.
          run_command-Within ext SameUsers-IsCommandFrame host fuel username cwd client c
            (λ q. absurd (h (e ∙ ap some q))))
