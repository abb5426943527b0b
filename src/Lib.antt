-- ===== src/Lib.antt =====
-- A model of the simple file system: the server `simdisk`, which keeps a disk of 100 MB in one
-- host file, and the messages and the state of the client `shell`.
--
-- The parts. A command (Command.antt, simdisk/src/main.rs) chooses a system call (Syscall.antt,
-- simdisk/src/syscall.rs). This walks from the root along the path (Dirent.antt,
-- simdisk/src/dirent.rs) and works on the directory it finds: Dirent/Make.antt and
-- Dirent/Remove.antt make and remove directories, File.antt (simdisk/src/file.rs) files. Inodes
-- are in Inode.antt and Inode/Dealloc.antt (simdisk/src/inode.rs), the names of entries in
-- Name.antt. Objects.antt, Objects/Insert.antt and Objects/Remove.antt are the part of
-- simdisk/src/block.rs that finds, inserts and removes an object in the direct and indirect blocks
-- of an inode; Bitmap.antt is simdisk/src/bitmap.rs. All of them reach the disk through the block
-- cache, Cache.antt, the other part of simdisk/src/block.rs. User.antt, SuperBlock.antt and
-- SimpleFs.antt are the files of simdisk/src of these names, Constants.antt is
-- simdisk/src/fs_constants.rs. Session.antt is the other part of simdisk/src/main.rs: the task
-- that serves a connection, from one read of its socket to the next (`take_turn`), and the server
-- with all its tasks as a step relation. Protocol.antt is lib/lib.rs, Shell.antt `deal_with_dir`
-- of shell/src/main.rs and Shell/Client.antt and Shell/Loop.antt are the rest of that file: the
-- messages it sends, how it takes the replies, and the loop of `main` from one read to the next
-- (`advance`).
--
-- State. State.antt holds the structs, and `World` for the `lazy_static` variables BITMAP_MANAGER,
-- BLOCK_CACHE_MANAGER and SFS, the host's file and the clock. A method that takes `&mut` is a
-- function from the world to an outcome and the next world; what was changed before an error
-- stays. An outcome is a value, an error (one constructor for each message), a panic (`unwrap`, an
-- assertion, an index out of range) or divergence. A method with the same name in two types
-- carries its type: `Inode::read` is `read_inode`, `User::read` is `read_users`. The locks are not
-- in the model: a call runs without another task between its steps, and so does the turn of a
-- task, while the turns of the tasks come in any order. A hash map is an association list, so that
-- the order of its entries is fixed.
--
-- Crates. `bitmaps::Bitmap<8>` is a record `BitOps` and the documented laws `IsBitmap8`; `bincode`
-- is a `Codec` for each type, and a theorem that reads what was written takes the round trip of
-- the value in question as a hypothesis. The texts that `format!` makes are functions in
-- `External`. What the client sends in the course of a command is an argument, as are the texts of
-- the errors and the success of each connection attempt of `send_content`.
--
-- Numbers are natural numbers; where the program casts or wraps (`as u32`, the links as `u8`, the
-- next user id as `u16`) the remainder is written out. Fuel: `alloc_bit` goes through its bytes
-- once, so a round for each byte is enough, and one more lets an empty bitmap panic;
-- `get_blocks_buffers` takes one pass; `split_inputs` makes at most one chunk for each byte;
-- `send_content` makes at most eleven attempts; `clear_dir` takes the depth of the tree as an
-- argument.
--
-- Proofs. Cache/View.antt has the abstract store of the cache (a block is what the cache has of
-- it, or else what the file has) and the invariant between the two, `IsCoherent`; Cache/Read.antt,
-- Cache/Buffers.antt, Cache/Write.antt, Cache/Fill.antt, Cache/Clear.antt, Cache/Sync.antt and
-- Cache/RoundTrip.antt show the operations against it. Bitmap/Bits.antt, Bitmap/Alloc.antt,
-- Bitmap/Manager.antt and Bitmap/Count.antt are about the bitmaps, Bitmap/Pages.antt,
-- Bitmap/Persist.antt and Bitmap/RoundTrip.antt about their blocks. SimpleFs/Restart.antt is about
-- the file that `sync_all_block_cache` leaves. The other parts have their proofs in their
-- children. Frame.antt follows a relation between the world before and after a call through the
-- whole program, on every outcome: Frame/Reading.antt, Frame/Changing.antt, Frame/Objects.antt,
-- Frame/Removal.antt, Frame/Inodes.antt, Frame/Trees.antt, Frame/Queries.antt, Frame/Commands.antt
-- and Frame/Dispatch.antt build the rules for each call, from rules for reading and writing blocks
-- and for the bitmaps. Frame/Store.antt, Frame/Puts.antt with Frame/Users.antt, and
-- Frame/Sound.antt with its children are three such relations; Frame/Sound/Start.antt is about the
-- world that the start of the server leaves. Session/Sound.antt and Session/Safety.antt are about
-- the server, Shell/Words.antt, Shell/Messages.antt and Shell/Login.antt about what it reads of
-- the messages of the shell, Shell/Replies.antt and Shell/Prompt.antt about the login state of the
-- shell, Shell/Agreement.antt about both sides, Protocol/Content.antt about `send_content`.
-- Tests.antt and its children run the model at concrete inputs.
--
-- Sockets. A read takes the first 128 (`SOCKET_BUFFER_SIZE`) of the bytes that wait at a socket;
-- what is left of them is part of what the next read finds. The theorems on messages of the shell
-- say that the message fits. The turn of a task includes the waits of `rd` for its answer and of
-- `newfile` for its content, at which other tasks could run.
--
-- White space is that of ASCII, where `trim` and `split_whitespace` of the source know all of
-- Unicode: the model agrees with the source on ASCII texts.
--
-- Not modelled: the prompt of the shell, the listener, failing writes to a socket, bytes of a
-- message that are not UTF-8, the date and the units of `ls` and `info`, and logging. These are
-- input and output.
pub mod Base
pub mod Constants
pub mod State
pub mod Cache
pub mod Bitmap
pub mod Objects
pub mod Name
pub mod User
pub mod SuperBlock
pub mod Inode
pub mod Dirent
pub mod File
pub mod SimpleFs
pub mod Syscall
pub mod Command
pub mod Shell
pub mod Protocol
pub mod Session
pub mod Frame
pub mod Tests
