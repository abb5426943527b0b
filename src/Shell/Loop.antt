-- ===== src/Shell/Loop.antt =====
-- shell/src/main.rs: the loop of `main`, cut at its reads of the terminal and of the socket.
use simple_fs_rust.Base.{
  take, ℕ, Bool, true, false, none, some, List, [], ◌∷◌, if◌then◌else◌, Bytes, codes,
}
use simple_fs_rust.Dirent.Remove.{trim}
use simple_fs_rust.Protocol.{socket_buffer_size, send_content}
use simple_fs_rust.Shell.Client.{
  ShellState, choose_sign_in, choose_sign_up, choose_again, choose, login_message, regist_message,
  after_login, ask_nothing, leave, ask_help, ask, request, message_of, send_file, confirm,
  receive_text, continue_with, crashed, react, shown, last_reply, read_file_content, help_lines,
}

-- What a read gives: a line of the terminal (no bytes at its end), what waits of the
-- server at the socket (no bytes where it has closed it; the read takes the first 128), the lines of a
-- file up to its end or to an error, the content sent to the shell's own listener, or an error.
pub data Input : Type 0 where
  line reply contents : Bytes → Input
  file : List Bytes → Input
  failed : Input

-- Where `main` waits. The flag of the three steps of a sign-in tells a registration.
pub data Waiting : Type 0 where
  choosing : Waiting
  naming : Bool → Waiting
  giving_password : Bool → Bytes → Waiting
  awaiting : Bool → Waiting
  typing : Waiting
  reading : Bytes → Waiting
  filing : Bytes → Waiting
  confirming : Waiting
  receiving : Waiting
  finishing : Waiting
  ended : Waiting

-- The variables of `main`, what it waits for, and what it wrote to the socket, to the terminal, and to the
-- address that the server gave.
pub record Shown : Type 0 where
  pub state : ShellState
  pub waiting : Waiting
  pub sent : List Bytes
  pub printed : List Bytes
  pub uploaded : List Bytes

-- The top of the loop.
abbrev pub top : ShellState → Waiting
top s = if s.is_login then typing else choosing

abbrev pub go : ShellState → Waiting → Shown
go s w = record { state = s; waiting = w; sent = []; printed = []; uploaded = [] }

abbrev pub say : ShellState → Waiting → Bytes → Shown
say s w bs = record { state = s; waiting = w; sent = bs ∷ []; printed = []; uploaded = [] }

abbrev pub back : ShellState → Shown
back s = go s (top s)

-- Lines 25 to 53.
unfoldable pub on_choice : ShellState → Bytes → Shown
on_choice s l = elim (choose l) [
  | choose_sign_in ↦ go s (naming false)
  | choose_sign_up ↦ go s (naming true)
  | choose_again ↦ go s choosing
]

unfoldable pub on_password : ShellState → Bool → Bytes → Bytes → Shown
on_password s true name password = say s (awaiting true) (regist_message name password)
on_password s false name password = say s (awaiting false) (login_message name password)

unfoldable pub on_signed : ShellState → Bool → Bytes → Shown
on_signed s true r = go s choosing
on_signed s false r = back (after_login r s)

-- Lines 59 to 83.
unfoldable pub on_input : ShellState → Bytes → Shown
on_input s l = elim (request s l) [
  | ask_nothing ↦ say s (top s) (message_of ask_nothing)
  | leave ↦ say s ended (message_of leave)
  | ask_help ↦ record {
    state = s;
    waiting = top s;
    sent = message_of ask_help ∷ [];
    printed = help_lines s.username;
    uploaded = [];
  }
  | ask bs ↦ say s (reading (trim l)) (message_of (ask bs))
]

-- Lines 92 to 144, where `addr` is the address of the shell's listener.
unfoldable pub on_reply : Bytes → ShellState → Bytes → Bytes → Shown
on_reply addr s input r = elim (react s input r) [
  | send_file to ↦ go s (filing to)
  | confirm ↦ go s confirming
  | receive_text ↦ say s receiving addr
  | continue_with s' ↦ back s'
  | crashed ↦ go s ended
]

-- The end of a file content, of an answer, of contents, and of a command.
unfoldable pub on_file : Bool → ShellState → List Bytes → Shown
on_file true s ls = record {
  state = s;
  waiting = finishing;
  sent = [];
  printed = [];
  uploaded = read_file_content ls ∷ [];
}
on_file false s ls = go s ended

unfoldable pub on_answer : ShellState → Bytes → Shown
on_answer s [] = say s (top s) (codes "n")
on_answer s (b ∷ bs) = say s finishing (b ∷ bs)

unfoldable pub on_contents : ShellState → Bytes → Shown
on_contents s [] = go s ended
on_contents s (b ∷ bs) = record {
  state = s;
  waiting = finishing;
  sent = [];
  printed = (shown (b ∷ bs)).1 ∷ [];
  uploaded = [];
}

unfoldable pub on_end : ShellState → Bytes → Shown
on_end s r = record {
  state = s;
  waiting = top s;
  sent = [];
  printed = elim (last_reply r) [ none ↦ [] | some text ↦ text ∷ [] ];
  uploaded = [];
}

-- A read that is awaited; `other` is for an error, for a socket that the server has closed, and for an input
-- of another kind, which does not occur.
abbrev pub by_line : Shown → (Bytes → Shown) → Input → Shown
by_line other f (line l) = f l
by_line other f _ = other

abbrev pub by_reply : Shown → (Bytes → Shown) → Input → Shown
by_reply other f (reply (b ∷ bs)) = f (take socket_buffer_size (b ∷ bs))
by_reply other f _ = other

abbrev pub by_file : Shown → (List Bytes → Shown) → Input → Shown
by_file other f (file ls) = f ls
by_file other f failed = f []
by_file other f _ = other

abbrev pub by_contents : Shown → (Bytes → Shown) → Input → Shown
by_contents other f (contents bs) = f bs
by_contents other f _ = other

-- One step from a read to the next. A read that fails inside `login` or `regist` leads back to the
-- choice, one of a file content ends the content, and any other ends the shell. `connects` and
-- `writes` are those of `send_content`.
unfoldable pub advance : Bytes → (ℕ → Bool) → Bool → ShellState → Waiting → Input → Shown
advance addr connects writes s choosing i = by_line (go s ended) (on_choice s) i
advance addr connects writes s (naming true) i =
    by_line (go s choosing) (λ l. go s (giving_password true l)) i
advance addr connects writes s (naming false) i =
    by_line (go (record s { username = [] }) choosing)
      (λ l. go (record s { username = l }) (giving_password false l)) i
advance addr connects writes s (giving_password up name) i =
    by_line (go s choosing) (on_password s up name) i
advance addr connects writes s (awaiting up) i = by_reply (go s choosing) (on_signed s up) i
advance addr connects writes s typing i = by_line (go s ended) (on_input s) i
advance addr connects writes s (reading input) i = by_reply (go s ended) (on_reply addr s input) i
advance addr connects writes s (filing to) i =
    by_file (go s ended) (on_file (send_content connects writes) s) i
advance addr connects writes s confirming i = by_line (go s ended) (on_answer s) i
advance addr connects writes s receiving i = by_contents (go s ended) (on_contents s) i
advance addr connects writes s finishing i = by_reply (go s ended) (on_end s) i
advance addr connects writes s ended i = go s ended

-- The start of `main`.
abbrev pub initial : ShellState
initial = record { is_login = false; username = []; cwd = codes "~" }

abbrev pub read_reply : Input → List Bytes → List Bytes
read_reply (reply bs) replies = take socket_buffer_size bs ∷ replies
read_reply _ replies = replies

-- The states that the shell reaches, with the replies it read, newest first.
pub data Runs : List Bytes → ShellState → Waiting → Type 0 where
  begun : Runs [] initial choosing
  stepped :
      {replies : List Bytes} {s : ShellState} {w : Waiting}
      → Runs replies s w
      → (addr : Bytes) (connects : ℕ → Bool) (writes : Bool) (input : Input)
      → Runs
          (read_reply input replies)
          (advance addr connects writes s w input).state
          (advance addr connects writes s w input).waiting
