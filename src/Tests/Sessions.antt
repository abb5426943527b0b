-- ===== src/Tests/Sessions.antt =====
-- Commands, sessions and the messages of the shell, at one world.
use simple_fs_rust.Base.{
  none, some, replicate, ℕ, ◌++◌, arith, ◌≡◌, List, codes, leb, Bytes, [], ◌∷◌, true, refl,
}
use simple_fs_rust.State.{External, CacheMethod, ok, Outcome, Error, World, err, BitmapType}
use simple_fs_rust.Bitmap.{
  sum_len, count_bits, count_valid_data_blocks, alloc_loop, alloc_bit_in, alloc_bit, read_bitmaps,
}
use simple_fs_rust.Cache.{
  sync_loop, get_block_mut, write_blocks_loop, write_blocks, write_block, read_blocks_loop,
  read_blocks_to_cache, get_blocks_buffers_loop, get_blocks_buffers, get_block_buffer, with_cache,
  sync_and_clear_cache,
}
use simple_fs_rust.Cache.Buffers.{store, Coherent}
use simple_fs_rust.Command.{do_command, parse_command, Command}
use simple_fs_rust.Frame.Sound.{BothReady, IsSound}
use simple_fs_rust.Frame.Sound.Start.{start-EndsSound, EndsSound}
use simple_fs_rust.Frame.Store.{do_command-SameStore}
use simple_fs_rust.Frame.Users.{do_command-SameUsers}
use simple_fs_rust.Inode.{
  read_inode, cal_offset, cache_inode, linkat, create_dot, second_nums, first_nums, direct_nums,
  block_nums, alloc_second_level, alloc_first_level, alloc_data_block, alloc_directs,
  alloc_data_blocks, new_root,
}
use simple_fs_rust.Name.{new_dirent}
use simple_fs_rust.Protocol.{login_success, attempts, connect_loop}
use simple_fs_rust.Protocol.Content.{connect_loop-Ended, Ended}
use simple_fs_rust.Session.{
  Event, logs_out, regist, run_words, on_lines, login, phase_after, Peer, Reaches, Server,
  on_command, on_sign_in, take_turn, received, signing_in, serving, started, then, accept, serve,
}
use simple_fs_rust.Session.Safety.{Serves-SignsIn, SignsIn, Any, opened, turned}
use simple_fs_rust.Session.Sound.{Reaches-IsSound}
use simple_fs_rust.Shell.Agreement.{help_lines_hides, Shows}
use simple_fs_rust.Shell.Client.{
  choose, after_login, ShellState, help_lines, regist_message, command_message, login_message,
}
use simple_fs_rust.Shell.Login.{on_sign_in-login_message}
use simple_fs_rust.Shell.Loop.{
  Runs, on_signed, on_password, on_choice, advance, begun, stepped, line, reply, typing,
}
use simple_fs_rust.Shell.Messages.{on_command-command_message}
use simple_fs_rust.Shell.Prompt.{Runs-Fits, HasSuccess}
use simple_fs_rust.Shell.Replies.{Fits}
use simple_fs_rust.SimpleFs.{read_sfs, create_fs_file, init_sfs, force_clear, sign_in_sfs, start}
use simple_fs_rust.SuperBlock.{valid, initial_super_block, init_super_block, read_super_block}
use simple_fs_rust.Tests.Bits.{bit_ops-IsBitmap8, Bits}
use simple_fs_rust.Tests.Blocks.{ext}
use simple_fs_rust.Tests.Worlds.{empty-IsCoherent, world-Coherent, world}
use simple_fs_rust.User.{read_users, cache_users, init_users, sign_in}

abbrev host : Bytes → Outcome Bytes
host path = err Error.cannot_read_buffer

abbrev error_text : Error → Bytes
error_text e = codes "error"

abbrev peer : Peer
peer = record {
  client = record { answer = codes "y"; sent = codes "text" };
  connects = λ k. leb 3 k;
  writes = true;
}

abbrev words : Bytes → Bytes → List Bytes
words w a = codes "eve" ∷ (codes "~" ∷ (w ∷ (a ∷ [])))

world-IsSound : IsSound world
world-IsSound = record { coherent = world-Coherent; ready = ready }
  where
    ready : BothReady (world.bitmaps)
    ready BitmapType.inode = record { starts_inside = omega arith; ids_fit = omega arith }
    ready BitmapType.data_block = record { starts_inside = omega arith; ids_fit = omega arith }

do_command-SameStore_example :
    let w' = (do_command ext host 5 (words (codes "cat") (codes "a.txt")) (peer.client) world).1 in
    (w' ≡ with_cache world w'.manager.block_cache)
    × Coherent w'
    × ((j : ℕ) → store w' j ≡ store world j)
unfolding parse_command
do_command-SameStore_example =
    do_command-SameStore ext host 5 (words (codes "cat") (codes "a.txt")) (peer.client) world
      (Command.cat (codes "a.txt")) refl refl world-Coherent

do_command-SameUsers_example :
    (do_command ext host 5 (words (codes "md") (codes "docs")) (peer.client) world).1.sfs.user_infos
    ≡ world.sfs.user_infos
unfolding parse_command
do_command-SameUsers_example =
    do_command-SameUsers ext host 5 (words (codes "md") (codes "docs")) (peer.client) world
      (λ q. cc q)

abbrev login_bytes : Bytes
login_bytes = codes "login\nroot\nadmin\n"

-- The server after one client has connected and sent a login.
abbrev served : Server (Bits 8)
served = record {
  tasks =
      phase_after (take_turn ext host 5 error_text peer signing_in (received login_bytes) world).0
      ∷ [];
  world = (take_turn ext host 5 error_text peer signing_in (received login_bytes) world).1;
}

served-Reaches : Reaches ext host 5 error_text world served
served-Reaches =
    then (then started (accept _)) (serve [] [] signing_in world peer (received login_bytes))

Reaches-IsSound_example : IsSound served.world
Reaches-IsSound_example =
    Reaches-IsSound ext bit_ops-IsBitmap8 host 5 error_text world served served-Reaches
      world-IsSound

Serves-SignsIn_example :
    Any (λ (m : World (Bits 8) × Event). SignsIn m.0 m.1) ((world, received login_bytes) ∷ [])
unfolding take_turn on_sign_in on_lines login sign_in_sfs sign_in
Serves-SignsIn_example =
    Serves-SignsIn ext host 5 error_text ((world, received login_bytes) ∷ []) serving
      (turned opened world peer (received login_bytes)) tt

connect_loop-Ended_example : Ended (λ k. leb 3 k) 0 (connect_loop attempts 0 (λ k. leb 3 k))
connect_loop-Ended_example = connect_loop-Ended (λ k. leb 3 k)

on_command-command_message_example :
    on_command ext host 5 error_text peer
      (received (command_message (codes "eve" ++ codes "\n") (codes "~") (codes "md docs")))
    ≡ run_words ext host 5 error_text
        (peer.client)
        (words (codes "md") (codes "docs"))
        (logs_out (words (codes "md") (codes "docs")))
unfolding command_message
on_command-command_message_example =
    on_command-command_message ext host 5 error_text peer (codes "eve") (codes "~")
      (codes "md docs") (codes "md") (codes "docs" ∷ []) (λ q. cc q, (refl, (refl, (refl, tt))))
      (λ q. cc q, (refl, tt)) (refl, (refl, (refl, tt))) (refl, tt)
      (refl, (refl, (refl, (refl, (refl, (refl, (refl, tt))))))) refl (omega arith)

on_sign_in-login_message_example :
    (on_sign_in ext host 5 error_text
        (received (login_message (codes "eve" ++ codes "\n") (codes "pw" ++ codes "\n")))
      ≡ login ext host 5 error_text (codes "eve" ∷ (codes "pw" ∷ [])))
    × (on_sign_in ext host 5 error_text
          (received (regist_message (codes "eve" ++ codes "\n") (codes "pw" ++ codes "\n")))
        ≡ regist ext host 5 error_text (codes "eve" ∷ (codes "pw" ∷ [])))
unfolding regist_message
on_sign_in-login_message_example =
    on_sign_in-login_message ext host 5 error_text (codes "eve") (codes "pw")
      ((refl, refl), ((refl, refl), ((refl, refl), tt))) ((refl, refl), ((refl, refl), tt))
      (omega arith)

abbrev shell : ShellState
shell = record { is_login = true; username = codes "root\n"; cwd = codes "~" }

help_lines_hides_example :
    (¬ (Shows (help_lines (codes "root" ++ codes "\n")) (codes "formatting")))
    × (¬ (Shows (help_lines (codes "root" ++ codes "\n")) (codes "users")))
    × Shows (help_lines (codes "root")) (codes "formatting")
    × Shows (help_lines (codes "root")) (codes "users")
help_lines_hides_example = help_lines_hides (codes "root")

-- The shell after `1`, a name, a password and the reply that accepts them.
abbrev typed : ShellState
typed = record { is_login = true; username = codes "root\n"; cwd = codes "~" }

typed-Runs : Runs (login_success ∷ []) typed typing
unfolding advance on_choice on_password on_signed after_login choose
typed-Runs =
    stepped
      (stepped
        (stepped (stepped begun [] (λ k. true) true (line (codes "1\n"))) [] (λ k. true) true
          (line (codes "root\n")))
        [] (λ k. true) true (line (codes "admin\n")))
      [] (λ k. true) true (reply login_success)

Runs-Fits_example :
    Fits typing typed.is_login × (typed.is_login ≡ true → HasSuccess (login_success ∷ []))
Runs-Fits_example = Runs-Fits (login_success ∷ []) typed typing typed-Runs

-- The world of a new process: empty bitmaps, an empty cache, a file of zeros.
abbrev boot : World (Bits 8)
boot = record world {
  bitmaps = record { inodes = []; datas = []; last_inode_byte_pos = 0; last_data_byte_pos = 0 };
  manager = record { block_cache = []; cache_method = CacheMethod.immediately };
}

abbrev boot_ext : External (Bits 8)
boot_ext = record ext {
  dirent_codec = record { to_bytes = λ d. some (replicate 16 1); of_bytes = λ bs. none };
}

-- On a file of zeros the super block is not valid, and the formatting returns.
boot_returns : (start boot_ext boot).0 ≡ ok tt
unfolding start init_sfs force_clear create_fs_file read_super_block read_sfs read_bitmaps
    init_super_block new_root init_users get_block_buffer get_blocks_buffers get_blocks_buffers_loop
    read_blocks_to_cache read_blocks_loop write_block write_blocks write_blocks_loop get_block_mut
    alloc_bit alloc_bit_in alloc_loop alloc_data_blocks alloc_directs alloc_data_block
    alloc_first_level alloc_second_level block_nums direct_nums first_nums second_nums
    count_valid_data_blocks count_bits sum_len create_dot new_dirent linkat cache_inode cal_offset
    cache_users sync_and_clear_cache sync_loop valid initial_super_block read_inode read_users
boot_returns = refl

-- The command of a shell that is signed in as root.
abbrev formatting_message : Bytes
formatting_message = command_message (codes "root" ++ codes "\n") (shell.cwd) (codes "formatting")

start-EndsSound_example :
    EndsSound (start boot_ext boot) × ((v : World (Bits 8)) → EndsSound (force_clear boot_ext v))
start-EndsSound_example = start-EndsSound boot_ext bit_ops-IsBitmap8 boot empty-IsCoherent
