-- ===== src/Protocol.antt =====
-- lib/lib.rs: the messages that the server and the shell exchange, and the sending of long contents.
pub mod Content
use simple_fs_rust.Base.{ℕ, zero, suc, ltb, Bool, true, false, ◌+◌, if◌then◌else◌, Bytes, codes}

abbrev pub empty_input : Bytes
empty_input = codes "EMPTY INPUT"

abbrev pub exit_msg : Bytes
exit_msg = codes "EXIT"

abbrev pub input_file_content : Bytes
input_file_content = codes "INPUT FILE CONTENT"

abbrev pub command_confirm : Bytes
command_confirm = codes "COMMAND CONFIRM"

abbrev pub command_finished : Bytes
command_finished = codes "COMMAND OK"

abbrev pub login_success : Bytes
login_success = codes "LOGIN_SUCCESS"

abbrev pub regist_success : Bytes
regist_success = codes "REGIST SUCCESS"

abbrev pub receive_contents : Bytes
receive_contents = codes "RECEIVE CONTENTS"

abbrev pub help_request : Bytes
help_request = codes "HELP"

abbrev pub error_message_prefix : Bytes
error_message_prefix = codes "ErrMsg:"

-- The size of the buffer that a read of the socket fills.
abbrev pub socket_buffer_size : ℕ
socket_buffer_size = 128

-- The end of the polling loop of `send_content`: connected at an attempt, given up, or out of fuel.
pub data Connection : Type 0 where
  connected : ℕ → Connection
  refused : Connection
  unfinished : Connection

-- The `loop` of `send_content`, where `connects` tells of each attempt whether `TcpStream::connect`
-- succeeds; `retry` counts those that failed. The pauses between them are left out.
unfoldable pub connect_loop : ℕ → ℕ → (ℕ → Bool) → Connection
connect_loop zero retry connects = Connection.unfinished
connect_loop (suc fuel) retry connects =
    let rest = connect_loop fuel (retry + 1) connects in
    if connects retry
    then Connection.connected retry
    else if ltb 10 (retry + 1)
    then Connection.refused
    else rest

-- The attempts that are enough.
abbrev pub attempts : ℕ
attempts = 11

-- `send_content`: whether the content was written, where `writes` tells whether `write_all` and
-- `shutdown` succeed.
unfoldable pub send_content : (ℕ → Bool) → Bool → Bool
send_content connects writes = elim (connect_loop attempts 0 connects) [
  | Connection.connected k ↦ writes
  | Connection.refused ↦ false
  | Connection.unfinished ↦ false
]
