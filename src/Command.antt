-- ===== src/Command.antt =====
-- simdisk/src/main.rs: `get_absolute_path` and `do_command`, the choice of the system call.
use simple_fs_rust.Base.{
  ℕ, Bool, true, false, Option, none, some, List, [], ◌∷◌, ◌++◌, if◌then◌else◌, Bytes, codes,
  bytes_eq, map, String,
}
use simple_fs_rust.State.{on_some, External, Error, Outcome, M, pure, fail, crash, ◌>>◌}
use simple_fs_rust.Cache.{is_some}
use simple_fs_rust.Dirent.Remove.{trim, remove_nul}
use simple_fs_rust.Inode.{rdwr}
use simple_fs_rust.Syscall.{Client, strip_prefix}
use simple_fs_rust.Syscall

unfoldable pub get_absolute_path : Bytes → Bytes → Bytes
get_absolute_path cwd path =
    if is_some (strip_prefix (codes "~") path) then path else cwd ++ (codes "/" ++ path)

-- The commands, by name and number of arguments.
pub data Command : Type 0 where
  dir : Option Bytes → Bool → Command
  info check users formatting : Command
  cd md rd newfile cat del setcache : Bytes → Command
  copy : Bytes → Bytes → Command

abbrev pub is_word : Bytes → String → Bool
is_word w s = bytes_eq w (codes s)

abbrev pub last_is_s : List Bytes → Bool
last_is_s [] = false
last_is_s (w ∷ []) = is_word w "/s"
last_is_s (w ∷ (v ∷ ws)) = last_is_s (v ∷ ws)

-- The arguments of `dir`, without the word itself; with `/s` at the end the details are shown.
abbrev pub parse_dir : Bool → List Bytes → Option Command
parse_dir true (s ∷ []) = some (Command.dir none true)
parse_dir true (path ∷ (s ∷ [])) = some (Command.dir (some path) true)
parse_dir true _ = none
parse_dir false [] = some (Command.dir none false)
parse_dir false (path ∷ []) = some (Command.dir (some path) false)
parse_dir false _ = none

abbrev pub parse_one : Bytes → Option Command
parse_one w =
    if is_word w "info"
    then some Command.info
    else if is_word w "check"
    then some Command.check
    else if is_word w "users"
    then some Command.users
    else if is_word w "formatting"
    then some Command.formatting
    else none

abbrev pub parse_two : Bytes → Bytes → Option Command
parse_two w a =
    if is_word w "cd"
    then some (Command.cd a)
    else if is_word w "md"
    then some (Command.md a)
    else if is_word w "rd"
    then some (Command.rd a)
    else if is_word w "newfile"
    then some (Command.newfile a)
    else if is_word w "cat"
    then some (Command.cat a)
    else if is_word w "del"
    then some (Command.del a)
    else if is_word w "setcache"
    then some (Command.setcache a)
    else none

-- The `if` and the `match` of `do_command` on its words, of which there is at least one.
unfoldable pub parse_command : List Bytes → Option Command
parse_command [] = none
parse_command (w ∷ ws) = if is_word w "dir" then parse_dir (last_is_s ws) ws else elim ws [
  | [] ↦ parse_one w
  | a ∷ [] ↦ parse_two w a
  | a ∷ (b ∷ []) ↦ if is_word w "copy" then some (Command.copy a b) else none
  | _ ↦ none
]

abbrev pub absolute_source : Bytes → Bytes → Bytes
absolute_source cwd path =
    if is_some (strip_prefix (codes "<host>") path) then path else get_absolute_path cwd path

module _ {B : Type 0} (ext : External B) (host : Bytes → Outcome Bytes) (fuel : ℕ) where
  unfoldable pub run_command : Bytes → Bytes → Client → Command → M B (Option Bytes)
  run_command username cwd client (Command.dir none detail) = Syscall.ls ext username cwd detail
  run_command username cwd client (Command.dir (some path) detail) =
      Syscall.ls ext username (get_absolute_path cwd path) detail
  run_command username cwd client Command.info = Syscall.info ext
  run_command username cwd client Command.check = do Syscall.check ext; pure none
  run_command username cwd client Command.users = Syscall.get_users_info ext username
  run_command username cwd client Command.formatting = do Syscall.formatting ext username; pure none
  run_command username cwd client (Command.cd path) = do
    Syscall.cd ext (get_absolute_path cwd path)
    pure none
  run_command username cwd client (Command.md path) = do
    Syscall.mkdir ext username (get_absolute_path cwd path)
    pure none
  run_command username cwd client (Command.rd path) = do
    Syscall.rmdir ext fuel username (get_absolute_path cwd path) client
    pure none
  run_command username cwd client (Command.newfile path) = do
    Syscall.new_file ext username (get_absolute_path cwd path) rdwr client
    pure none
  run_command username cwd client (Command.cat path) = Syscall.cat ext (get_absolute_path cwd path)
  run_command username cwd client (Command.del path) = do
    Syscall.del ext username (get_absolute_path cwd path)
    pure none
  run_command username cwd client (Command.setcache method) = do
    Syscall.set_block_cache_method ext method
    pure none
  run_command username cwd client (Command.copy source target) = do
    Syscall.copy ext host username (absolute_source cwd source) (get_absolute_path cwd target)
        client
    pure none

  -- `do_command`: the user's name, the directory and the words of the command. A missing name,
  -- directory or word is an index out of range.
  unfoldable pub do_command : List Bytes → Client → M B (Option Bytes)
  unfolding parse_command run_command
  do_command (username ∷ (cwd ∷ (w ∷ ws))) client =
      on_some (parse_command (map (λ a. trim (remove_nul a)) (w ∷ ws))) (fail Error.error_arg)
        λ c. run_command username cwd client c
  do_command _ client = crash
