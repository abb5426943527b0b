-- ===== src/Shell.antt =====
-- shell/src/main.rs: `deal_with_dir`, by which the shell follows a `cd` in its own idea of the
-- current directory.
pub mod Paths
pub mod Client
pub mod Words
pub mod Messages
pub mod Login
pub mod Loop
pub mod Replies
pub mod Prompt
pub mod Agreement
use simple_fs_rust.Base.{none, some, List, [], ◌∷◌, ◌++◌, if◌then◌else◌, Bytes, codes, bytes_eq}
use simple_fs_rust.State.{Outcome, ok, panic}
use simple_fs_rust.Name.{rsplit_once}
use simple_fs_rust.Dirent.{split_on}

-- The loop of `deal_with_dir` over the parts of the path. `cwd.rfind('/').unwrap()` panics where
-- there is no `/`.
pub walk : List Bytes → Bytes → Outcome Bytes
walk [] cwd = ok cwd
walk (p ∷ ps) cwd =
    let stay = walk ps cwd in
    let down = walk ps (cwd ++ (codes "/" ++ p)) in
    if bytes_eq p (codes ".")
    then stay
    else if bytes_eq p (codes "..")
    then elim (rsplit_once b'/' cwd) [ none ↦ panic | some (up, _) ↦ walk ps up ]
    else down

-- `deal_with_dir`, on the second word of the input.
pub deal_with_dir : Bytes → Bytes → Outcome Bytes
unfolding walk
deal_with_dir path cwd = elim (split_on b'/' path) [
  | [] ↦ panic
  | p ∷ ps ↦ if bytes_eq p (codes "~") then walk ps (codes "~") else walk (p ∷ ps) cwd
]
