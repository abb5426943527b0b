-- ===== src/User.antt =====
-- simdisk/src/user.rs: the table of users, and the test of permissions.
pub mod Table
pub mod RoundTrip
use simple_fs_rust.Base.{
  ℕ, ◌+◌, ◌%◌, ◌^◌, ◌==◌, leb, Bool, Option, none, some, [], ◌∷◌, if◌then◌else◌, Bytes, codes,
  bytes_eq,
}
use simple_fs_rust.State.{
  gets, modify, User, UserInfo, UserIdGroup, External, Error, Outcome, ok, err, M, pure, unwrap,
  ◌>>=◌, ◌>>◌,
}
use simple_fs_rust.Cache.{write_block, get_block_buffer, deserialize, is_some}
use simple_fs_rust.Constants.{block_size, user_start_byte}

-- `HashMap::get` and `HashMap::insert` of the table.
abbrev pub lookup_user : Bytes → UserInfo → Option (Bytes × UserIdGroup)
lookup_user name [] = none
lookup_user name ((n, v) ∷ info) = if bytes_eq n name then some v else lookup_user name info

abbrev pub insert_user : Bytes → Bytes × UserIdGroup → UserInfo → UserInfo
insert_user name v [] = (name, v) ∷ []
insert_user name v ((n, x) ∷ info) =
    if bytes_eq n name then (n, v) ∷ info else (n, x) ∷ insert_user name v info

abbrev pub contains_user : Bytes → UserInfo → Bool
contains_user name info = is_some (lookup_user name info)

-- The table that `User::init` makes.
abbrev pub initial_users : User
initial_users = record {
  info = insert_user (codes "root") (codes "admin", record { gid = 0; uid = 0 }) [];
  max_id = 1;
}

-- The change of the table by `User::sign_up`; `max_id` is a `u16`.
unfoldable pub add_user : Bytes → Bytes → User → Outcome User
add_user username password users =
    if contains_user username users.info
    then err Error.user_exists
    else ok (record {
      info = insert_user username (password, record { gid = 1; uid = users.max_id }) users.info;
      max_id = (users.max_id + 1) % 2 ^ 16;
    })

unfoldable pub sign_in : Bytes → Bytes → User → Outcome (Unit {0})
sign_in username password users = elim (lookup_user username users.info) [
  | some v ↦ if bytes_eq v.0 password then ok tt else err Error.incorrect_password
  | none ↦ err Error.user_not_exists
]

-- The `find_map` of `get_user_name`, in the order of the table.
abbrev pub find_uid : ℕ → UserInfo → Option Bytes
find_uid uid [] = none
find_uid uid ((n, v) ∷ info) = if v.1.uid == uid then some n else find_uid uid info

pub get_user_name : ℕ → User → Outcome Bytes
get_user_name uid users = elim (find_uid uid users.info) [
  | some name ↦ ok name
  | none ↦ err Error.uid_not_exists
]

unfoldable pub able_to_modify : ℕ → ℕ → Bool
able_to_modify this other = leb this other

module _ {B : Type 0} (ext : External B) where
  open ext use {user_codec}

  abbrev pub set_users : User → M B (Unit {0})
  set_users users = modify (λ w. record w { sfs = record (w.sfs) { user_infos = users } })

  unfoldable pub cache_users : User → M B (Unit {0})
  cache_users users = unwrap (write_block user_codec users 0 user_start_byte)

  unfoldable pub init_users : M B User
  init_users = do cache_users initial_users; pure initial_users

  unfoldable pub read_users : M B User
  read_users = do buf ← get_block_buffer 0 user_start_byte block_size; deserialize user_codec buf

  -- `self` of `sign_up` is the table of the locked file system: it is changed before it is written.
  unfoldable pub sign_up : Bytes → Bytes → M B (Unit {0})
  sign_up username password = do
    users ← gets (λ w. w.sfs.user_infos)
    users' ← λ w. (add_user username password users, w)
    set_users users'
    cache_users users'
