-- ===== src/Frame/Dispatch.antt =====
-- `do_command` of simdisk/src/main.rs: the rules for the words of a command.
use simple_fs_rust.Base.{
  Option-cases, ◌≡◌, map, ℕ, Option, Bytes, Bool, List, [], ◌∷◌, true, false, none, some, inl, inr,
}
use simple_fs_rust.State.{Outcome, External, World}
use simple_fs_rust.Command.{get_absolute_path, do_command, run_command, parse_command, Command}
use simple_fs_rust.Dirent.Remove.{remove_nul, trim}
use simple_fs_rust.Frame.{frame_rules, Within, IsFrame}
use simple_fs_rust.Frame.Queries.{cat-Within, cd_call-Within, users-Within, info-Within, ls-Within}
use simple_fs_rust.Frame.Reading.{IsReadFrame}
use simple_fs_rust.Syscall.{Client}

-- The command that a list of words asks for, behind the name of the user and the directory.
abbrev pub command_of : List Bytes → Option Command
command_of (username ∷ (cwd ∷ (w ∷ ws))) = parse_command (map (λ a. trim (remove_nul a)) (w ∷ ws))
command_of args = none

-- A command that changes neither blocks nor bitmaps nor the settings.
abbrev pub is_query : Command → Bool
is_query (Command.dir path detail) = true
is_query Command.info = true
is_query Command.users = true
is_query (Command.cd path) = true
is_query (Command.cat path) = true
is_query _ = false

module _ {B : Type 0} {R : World B → World B → Type 0} (ext : External B)
    (host : Bytes → Outcome Bytes) (fuel : ℕ) where
  -- The frame for the parsed command.
  pub do_command-Within :
      IsFrame R
      → (args : List Bytes) (client : Client)
      → ((c : Command) (username cwd : Bytes)
          → command_of args ≡ some c
          → Within R (run_command ext host fuel username cwd client c))
      → Within R (do_command ext host fuel args client)
  unfolding do_command
  do_command-Within F [] client h = search (frame_rules, F)
  do_command-Within F (username ∷ []) client h = search (frame_rules, F)
  do_command-Within F (username ∷ (cwd ∷ [])) client h = search (frame_rules, F)
  do_command-Within F (username ∷ (cwd ∷ (w ∷ ws))) client h =
      elim (Option-cases (parse_command (map (λ a. trim (remove_nul a)) (w ∷ ws)))) [
        | inl e ↦ rw e (search (frame_rules, F))
        | inr (c, e) ↦ rw e (h c username cwd e)
      ]

  pub query-Within :
      IsReadFrame R
      → (username cwd : Bytes) (client : Client) (c : Command) → is_query c ≡ true
      → Within R (run_command ext host fuel username cwd client c)
  unfolding run_command
  query-Within F username cwd client (Command.dir none detail) h =
      ls-Within ext F username cwd detail
  query-Within F username cwd client (Command.dir (some path) detail) h =
      ls-Within ext F username (get_absolute_path cwd path) detail
  query-Within F username cwd client Command.info h = info-Within ext F
  query-Within F username cwd client Command.users h = users-Within ext F username
  query-Within F username cwd client (Command.cd path) h =
      search (frame_rules, F.frame, cd_call-Within ext F) depth 8
  query-Within F username cwd client (Command.cat path) h =
      cat-Within ext F (get_absolute_path cwd path)
  query-Within F username cwd client Command.check h = absurd (cc h)
  query-Within F username cwd client Command.formatting h = absurd (cc h)
  query-Within F username cwd client (Command.md path) h = absurd (cc h)
  query-Within F username cwd client (Command.rd path) h = absurd (cc h)
  query-Within F username cwd client (Command.newfile path) h = absurd (cc h)
  query-Within F username cwd client (Command.del path) h = absurd (cc h)
  query-Within F username cwd client (Command.setcache method) h = absurd (cc h)
  query-Within F username cwd client (Command.copy source target) h = absurd (cc h)
