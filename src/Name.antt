-- ===== src/Name.antt =====
-- simdisk/src/dirent.rs, the names of directory entries: `DirEntry::new`, its equality,
-- `get_filename`, `is_special_dir` and `split_name`. A name is its UTF-8 bytes.
pub mod Parts
use simple_fs_rust.Base.{
  ℕ, ◌-◌, ◌==◌, ltb, Bool, true, false, not, ◌&&◌, ◌||◌, Option, none, some, [], ◌∷◌, ◌++◌,
  if◌then◌else◌, Bytes, codes, bytes_eq, length, replicate,
}
use simple_fs_rust.Constants.{name_length_limit, extension_length_limit, dirent_size}
use simple_fs_rust.State.{DirEntry, External, Error, Outcome, ok, err}
use simple_fs_rust.Objects.{Object}

-- `PartialEq for DirEntry`
abbrev pub dirent_eq : DirEntry → DirEntry → Bool
dirent_eq a b = bytes_eq a.filename b.filename && bytes_eq a.extension b.extension

-- A name in an array of `n` bytes, the rest 0.
abbrev pub pad : ℕ → Bytes → Bytes
pad n bs = bs ++ replicate (n - length bs) 0

-- `DirEntry::new`
unfoldable pub new_dirent : Bytes → Bytes → Bool → ℕ → Outcome DirEntry
new_dirent filename extension is_dir inode_id =
    if ltb name_length_limit (length filename)
    then err Error.filename_too_long
    else if ltb extension_length_limit (length extension)
    then err Error.extension_too_long
    else ok (record {
      filename = pad name_length_limit filename;
      extension = pad extension_length_limit extension;
      is_dir = is_dir;
      inode_id = inode_id;
    })

pub new_temp : Bytes → Bytes → Bool → Outcome DirEntry
unfolding new_dirent
new_temp filename extension is_dir = new_dirent filename extension is_dir 0

-- `split('\0').next()`
abbrev pub before_nul : Bytes → Bytes
before_nul [] = []
before_nul (b ∷ bs) = if b == 0 then [] else b ∷ before_nul bs

abbrev pub is_nil : Bytes → Bool
is_nil [] = true
is_nil (b ∷ bs) = false

pub get_filename : DirEntry → Bytes
get_filename d =
    if not (is_nil (before_nul d.extension))
    then before_nul d.filename ++ (b'.' ∷ before_nul d.extension)
    else before_nul d.filename

-- `name == "." || name == ".."`
pub is_special_dir : Bytes → Bool
is_special_dir name = bytes_eq name (codes ".") || bytes_eq name (codes "..")

pub is_parent : DirEntry → Bool
unfolding get_filename
is_parent d = bytes_eq (get_filename d) (codes "..")

pub is_current : DirEntry → Bool
unfolding get_filename
is_current d = bytes_eq (get_filename d) (codes ".")

pub is_special : DirEntry → Bool
unfolding get_filename is_special_dir
is_special d = is_special_dir (get_filename d)

-- `rsplit_once(c)`: the parts before and behind the last `c`.
abbrev pub rsplit_once : ℕ → Bytes → Option (Bytes × Bytes)
rsplit_once c [] = none
rsplit_once c (b ∷ bs) = elim (rsplit_once c bs) [
  | some (xs, ys) ↦ some (b ∷ xs, ys)
  | none ↦ if b == c then some ([], bs) else none
]

unfoldable pub split_name : Bytes → Bytes × Bytes
split_name name = elim (rsplit_once b'.' name) [ some it ↦ it | none ↦ (name, []) ]

abbrev pub default_dirent : DirEntry
default_dirent = record {
  filename = replicate name_length_limit 0;
  extension = replicate extension_length_limit 0;
  is_dir = false;
  inode_id = 0;
}

abbrev pub dirent_object : {B : Type 0} → External B → Object DirEntry
dirent_object ext = record {
  codec = ext.dirent_codec;
  size = dirent_size;
  default = default_dirent;
  eq = dirent_eq;
}
