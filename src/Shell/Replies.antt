-- ===== src/Shell/Replies.antt =====
-- shell/src/main.rs: no reply to a command raises the login flag of the shell.
use simple_fs_rust.Base.{
  Option, codes, Bool-cases, if◌then◌else◌, Bytes, bytes_eq, ◌≡◌, Bool, List, [], ◌∷◌, true, false,
  inl, inr,
}
use simple_fs_rust.State.{Outcome, ok, err, panic, diverge}
use simple_fs_rust.Cache.{is_some}
use simple_fs_rust.Dirent.Remove.{remove_nul, trim}
use simple_fs_rust.Protocol.{
  command_finished, receive_contents, command_confirm, input_file_content,
}
use simple_fs_rust.Session.{split_whitespace}
use simple_fs_rust.Shell.{deal_with_dir}
use simple_fs_rust.Shell.Client.{
  send_file, continued, Reaction, ShellState, after_command, react, confirm, receive_text,
  continue_with, crashed,
}
use simple_fs_rust.Shell.Loop.{
  Waiting, choosing, naming, giving_password, awaiting, typing, reading, filing, confirming,
  receiving, finishing, ended,
}
use simple_fs_rust.Syscall.{strip_prefix}

-- What the place where the shell waits tells of `is_login`.
abbrev pub Fits : Waiting → Bool → Type 0
Fits choosing b = b ≡ false
Fits (naming up) b = b ≡ false
Fits (giving_password up name) b = b ≡ false
Fits (awaiting up) b = b ≡ false
Fits typing b = b ≡ true
Fits (reading input) b = b ≡ true
Fits (filing to) b = b ≡ true
Fits confirming b = b ≡ true
Fits receiving b = b ≡ true
Fits finishing b = b ≡ true
Fits ended b = Unit

-- The flag is not raised.
abbrev pub Lowers : ShellState → ShellState → Type 0
Lowers s s' = s'.is_login ≡ true → s.is_login ≡ true

abbrev LowersOutcome : ShellState → Outcome ShellState → Type 0
LowersOutcome s (ok s') = Lowers s s'
LowersOutcome s (err e) = Unit
LowersOutcome s panic = Unit
LowersOutcome s diverge = Unit

abbrev pub LowersReaction : ShellState → Reaction → Type 0
LowersReaction s (continue_with s') = Lowers s s'
LowersReaction s _ = Unit

moved_cwd :
    (s : ShellState) (o : Outcome Bytes)
    → LowersOutcome s (elim o [ ok cwd ↦ ok (record s { cwd = cwd }) | _ ↦ panic ])
moved_cwd s (ok cwd) = λ h. h
moved_cwd s (err e) = tt
moved_cwd s panic = tt
moved_cwd s diverge = tt

moved :
    (s : ShellState) (ws : List Bytes)
    → LowersOutcome s (elim ws [
      | w ∷ (path ∷ ws) ↦ elim (deal_with_dir path s.cwd) [
        | ok cwd ↦ ok (record s { cwd = cwd })
        | _ ↦ panic
      ]
      | _ ↦ panic
    ])
moved s [] = tt
moved s (w ∷ []) = tt
moved s (w ∷ (path ∷ ws)) = moved_cwd s (deal_with_dir path s.cwd)

after_command-Lowers : (s : ShellState) (input : Bytes) → LowersOutcome s (after_command s input)
unfolding after_command
after_command-Lowers s input = elim (Bool-cases (is_some (strip_prefix (codes "cd") input))) [
  | inl cd_input ↦ rw (cd_input, after_command) (moved s (split_whitespace input))
  | inr other_input ↦ elim (Bool-cases (bytes_eq input (codes "formatting"))) [
    | inl formats ↦ rw (other_input, formats, after_command) (λ q. cc q)
    | inr stays ↦ rw (other_input, stays, after_command) (λ q. q)
  ]
]

continued-Lowers :
    (s : ShellState) (o : Outcome ShellState) → LowersOutcome s o → LowersReaction s (continued o)
continued-Lowers s (ok s') h = h
continued-Lowers s (err e) h = tt
continued-Lowers s panic h = tt
continued-Lowers s diverge h = tt

known_reply :
    (s : ShellState) (r : Reaction) (a b c : Bool)
    → LowersReaction s r
    → LowersReaction s (if a then confirm else if b then receive_text else if c then r else crashed)
known_reply s r true b c h = tt
known_reply s r false true c h = tt
known_reply s r false false true h = h
known_reply s r false false false h = tt

file_reply :
    (s : ShellState) (o : Option Bytes)
    → LowersReaction s (elim o [ Option.none ↦ crashed | Option.some addr ↦ send_file addr ])
file_reply s Option.none = tt
file_reply s (Option.some addr) = tt

pub react-Lowers : (s : ShellState) (input r : Bytes) → LowersReaction s (react s input r)
unfolding react
react-Lowers s input r =
    let msg = trim (remove_nul r) in
    elim (Bool-cases (is_some (strip_prefix input_file_content (remove_nul r)))) [
      | inl e ↦ rw (e, react) (file_reply s (strip_prefix input_file_content msg))
      | inr e ↦
          rw (e, react)
            (known_reply s (continued (after_command s input)) (bytes_eq msg command_confirm)
              (bytes_eq msg receive_contents) (bytes_eq msg command_finished)
              (continued-Lowers s (after_command s input) (after_command-Lowers s input)))
    ]
