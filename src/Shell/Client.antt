-- ===== src/Shell/Client.antt =====
-- shell/src/main.rs: what the shell sends for the lines of its user, and how it takes the replies.
use simple_fs_rust.Base.{
  ◌-◌, leb, ◌&&◌, Bool, true, false, Option, none, some, List, [], ◌∷◌, ◌++◌, map, if◌then◌else◌,
  Bytes, codes, bytes_eq,
}
use simple_fs_rust.State.{Outcome, ok, panic}
use simple_fs_rust.Cache.{is_some}
use simple_fs_rust.Name.{is_nil}
use simple_fs_rust.Dirent.Remove.{trim, remove_nul}
use simple_fs_rust.Syscall.{strip_prefix, to_lowercase}
use simple_fs_rust.Session.{split_whitespace}
use simple_fs_rust.Shell.{deal_with_dir}
use simple_fs_rust.Protocol.{
  empty_input, exit_msg, help_request, input_file_content, command_confirm, receive_contents,
  command_finished, login_success, regist_success, error_message_prefix,
}

-- The variables of `main`; `username` is a line, with its line feed.
pub record ShellState : Type 0 where
  pub is_login : Bool
  pub username : Bytes
  pub cwd : Bytes

pub data Choice : Type 0 where
  choose_sign_in choose_sign_up choose_again : Choice

abbrev pub to_uppercase : Bytes → Bytes
to_uppercase = map (λ c. if leb b'a' c && leb c b'z' then c - 32 else c)

abbrev pub one_of : Bytes → List Bytes → Bool
one_of w [] = false
one_of w (x ∷ xs) = if bytes_eq w x then true else one_of w xs

-- The `match` on the line that selects signing in or up.
unfoldable pub choose : Bytes → Choice
choose line =
    let word = trim (to_lowercase line) in
    if one_of word (codes "sign in" ∷ (codes "1" ∷ (codes "i" ∷ [])))
    then choose_sign_in
    else if one_of word (codes "sign up" ∷ (codes "2" ∷ (codes "u" ∷ [])))
    then choose_sign_up
    else choose_again

-- The messages of `login` and `regist`, from the two lines of the user.
unfoldable pub login_message : Bytes → Bytes → Bytes
login_message username password = codes "login\n" ++ (username ++ password)

unfoldable pub regist_message : Bytes → Bytes → Bytes
regist_message username password = codes "regist\n" ++ (username ++ password)

-- `main` behind the reply to a login.
unfoldable pub after_login : Bytes → ShellState → ShellState
after_login reply s = if bytes_eq reply login_success then record s { is_login = true } else s

-- Whether `regist` succeeds.
pub regist_done : Bytes → Bool
regist_done reply = bytes_eq reply regist_success

-- What a line leads to.
pub data Request : Type 0 where
  ask_nothing leave ask_help : Request
  ask : Bytes → Request

unfoldable pub command_message : Bytes → Bytes → Bytes → Bytes
command_message username cwd input = username ++ (codes " " ++ (cwd ++ (codes " " ++ input)))

pub request : ShellState → Bytes → Request
unfolding command_message
request s line =
    let input = trim line in
    if is_nil input
    then ask_nothing
    else if bytes_eq (trim (to_uppercase input)) exit_msg
    then leave
    else if bytes_eq (trim (to_uppercase input)) help_request
    then ask_help
    else ask (command_message s.username s.cwd input)

-- The bytes that are written for it.
pub message_of : Request → Bytes
message_of ask_nothing = empty_input
message_of leave = exit_msg
message_of ask_help = empty_input
message_of (ask bs) = bs

-- What the shell does at a reply of the server.
pub data Reaction : Type 0 where
  send_file : Bytes → Reaction
  confirm receive_text : Reaction
  continue_with : ShellState → Reaction
  crashed : Reaction

-- The branch of `COMMAND_FINISHED`; `cd` without a path is an index out of range.
unfoldable pub after_command : ShellState → Bytes → Outcome ShellState
after_command s input =
    if is_some (strip_prefix (codes "cd") input)
    then elim (split_whitespace input) [
      | w ∷ (path ∷ ws) ↦ elim (deal_with_dir path s.cwd) [
        | ok cwd ↦ ok (record s { cwd = cwd })
        | _ ↦ panic
      ]
      | _ ↦ panic
    ]
    else if bytes_eq input (codes "formatting")
    then ok (record s { is_login = false })
    else ok s

abbrev pub continued : Outcome ShellState → Reaction
continued (ok s) = continue_with s
continued _ = crashed

-- The `match` on the reply; a text that it does not know is a panic.
unfoldable pub react : ShellState → Bytes → Bytes → Reaction
unfolding after_command
react s input reply =
    let clean = remove_nul reply in
    let msg = trim clean in
    if is_some (strip_prefix input_file_content clean)
    then elim (strip_prefix input_file_content msg) [ none ↦ crashed | some addr ↦ send_file addr ]
    else if bytes_eq msg command_confirm
    then confirm
    else if bytes_eq msg receive_contents
    then receive_text
    else if bytes_eq msg command_finished
    then continued (after_command s input)
    else crashed

-- What is printed of the contents received, and whether as an error.
pub shown : Bytes → Bool × Bytes
shown contents = elim (strip_prefix error_message_prefix contents) [
  | some text ↦ (true, text)
  | none ↦ (false, contents)
]

-- The reply that ends a command, where it is another one than COMMAND_FINISHED: it is printed.
pub last_reply : Bytes → Option Bytes
last_reply reply =
    if bytes_eq (trim (remove_nul reply)) command_finished then none else some (remove_nul reply)

-- `read_file_content`, on the lines up to the end of the input or to an error.
pub read_file_content : List Bytes → Bytes
read_file_content [] = []
read_file_content (line ∷ rest) = line ++ read_file_content rest

-- The lines of `print_help`; the name is compared with its line feed.
unfoldable pub help_lines : Bytes → List Bytes
help_lines username =
    map codes (
      "info"
      ∷ ("dir (path) (/s)"
          ∷ ("cd [path]"
              ∷ ("md [path]"
                  ∷ ("rd [path]"
                      ∷ ("newfile [filename]"
                          ∷ ("cat [filename]"
                              ∷ ("copy (<host>)[src path] [dst path]" ∷ ("check" ∷ [])))))))))
    ++ ((if bytes_eq username (codes "root") then codes "formatting" ∷ (codes "users" ∷ []) else [])
        ++ (codes "EXIT" ∷ []))
