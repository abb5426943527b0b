-- ===== src/Syscall.antt =====
-- simdisk/src/syscall.rs: what the commands of a client do. The files of the host, the bytes that the
-- client sends and the depth of the tree (for `clear_dir`) are arguments.
use simple_fs_rust.Base.{
  ℕ, ◌+◌, ◌==◌, leb, Bool, true, false, not, ◌&&◌, Option, none, some, List, [], ◌∷◌, ◌++◌,
  if◌then◌else◌, Bytes, codes, bytes_eq, map,
}
use simple_fs_rust.State.{
  crash, on_some, assert, InodeType, Inode, CacheMethod, External, Error, Outcome, M, pure, fail,
  gets, modify, lift, unwrap, ◌>>=◌, ◌>>◌,
}
use simple_fs_rust.Bitmap.{count_inodes, count_data_blocks}
use simple_fs_rust.Cache.{is_sync_immediately, is_sync_scheduled}
use simple_fs_rust.Dirent.{LeveledDirent, get_all_dirent, cd as cd_from}
use simple_fs_rust.Dirent.Make.{make_directory}
use simple_fs_rust.Dirent.Remove.{remove_directory}
use simple_fs_rust.File.{create_file, remove_file, get_file_content}
use simple_fs_rust.Inode.{read_inode, rdonly, rdwr}
use simple_fs_rust.Name.{rsplit_once, get_filename}
use simple_fs_rust.SimpleFs.{
  get_users_info as users_info, get_user_ids, get_user_gid, sync_all_block_cache, force_clear,
  check_bitmaps_and_fix,
}
use simple_fs_rust.User.{able_to_modify, get_user_name}

-- What a client sends in the course of a command: its answer to a confirmation, and the content of
-- a file.
pub record Client : Type 0 where
  pub answer : Bytes
  pub sent : Bytes

-- `strip_prefix`, which also tells `starts_with`.
abbrev pub strip_prefix : Bytes → Bytes → Option Bytes
strip_prefix [] bs = some bs
strip_prefix (p ∷ ps) [] = none
strip_prefix (p ∷ ps) (b ∷ bs) = if p == b then strip_prefix ps bs else none

abbrev pub to_lowercase : Bytes → Bytes
to_lowercase = map (λ c. if leb b'A' c && leb c b'Z' then c + 32 else c)

-- `Inode::is_dir`
abbrev pub is_dir : Inode → Bool
is_dir inode = elim (inode.inode_type) [ InodeType.directory ↦ true | InodeType.file ↦ false ]

module _ {B : Type 0} (ext : External B) where
  open ext use {bits, info_text, users_text, detail_text}

  -- `temp_cd_and_do`
  unfoldable pub temp_cd_and_do : {A : Type 0} → Bytes → Bool → (Bytes → Inode → M B A) → M B A
  temp_cd_and_do absolute_path need_sync f = do
    root ← gets (λ w. w.sfs.root_inode)
    on_some (rsplit_once b'/' absolute_path) crash λ p. do
      current ← cd_from ext p.0 root
      result ← f p.1 current
      immediately ← gets (λ w. is_sync_immediately w.manager)
      if need_sync && immediately then (do sync_all_block_cache ext; pure result) else pure result

  -- `get_current_user_ids` and `get_current_user_gid`
  unfoldable pub get_current_user_ids : Bytes → M B (ℕ × ℕ)
  get_current_user_ids username = do
    users ← gets (λ w. w.sfs.user_infos)
    ids ← unwrap (lift (get_user_ids username users))
    pure (ids.gid, ids.uid)

  unfoldable pub get_current_user_gid : Bytes → M B ℕ
  get_current_user_gid username = do
    users ← gets (λ w. w.sfs.user_infos)
    unwrap (lift (get_user_gid username users))

  unfoldable pub info : M B (Option Bytes)
  info =
      gets (λ w. some (info_text (count_inodes bits w.bitmaps) (count_data_blocks bits w.bitmaps)))

  -- The loop of `Inode::ls` of inode.rs.
  unfoldable pub ls_loop : Bytes → Bool → List LeveledDirent → M B Bytes
  ls_loop username detail [] = pure []
  ls_loop username detail (e ∷ es) =
      let rest = ls_loop username detail es in
      let d = e.2 in
      let name = get_filename d ++ (if d.is_dir then codes "/" else []) in
      do
        line ←
            (if detail
              then (do
                inode ← unwrap (read_inode ext (d.inode_id))
                users ← gets (λ w. w.sfs.user_infos)
                gid ← unwrap (lift (get_user_gid username users))
                creator ← unwrap (lift (get_user_name inode.uid users))
                let mode = if able_to_modify gid (inode.gid) then inode.mode else rdonly
                pure (name ++ detail_text inode (d.is_dir) mode creator))
              else pure name)
        more ← rest
        pure (line ++ (codes "\n" ++ more))

  unfoldable pub ls : Bytes → Bytes → Bool → M B (Option Bytes)
  ls username path detail = temp_cd_and_do (path ++ codes "/") false λ _ inode. do
    assert (is_dir inode)
    ds ← unwrap (get_all_dirent ext inode)
    text ← ls_loop username detail ds
    pure (some text)

  unfoldable pub mkdir : Bytes → Bytes → M B (Unit {0})
  mkdir username path = temp_cd_and_do path true λ name inode. do
    (gid, uid) ← get_current_user_ids username
    parent ← make_directory ext name inode gid uid
    pure tt

  unfoldable pub rmdir : ℕ → Bytes → Bytes → Client → M B (Unit {0})
  rmdir fuel username path client = temp_cd_and_do path true λ name inode. do
    gid ← get_current_user_gid username
    parent ← remove_directory ext fuel name inode (client.answer) gid
    pure tt

  unfoldable pub cd : Bytes → M B (Unit {0})
  cd path = do root ← gets (λ w. w.sfs.root_inode); target ← cd_from ext path root; pure tt

  unfoldable pub new_file : Bytes → Bytes → ℕ → Client → M B (Unit {0})
  new_file username path mode client = temp_cd_and_do path true λ name inode. do
    ids ← get_current_user_ids username
    parent ← create_file ext name mode inode false [] (client.sent) ids
    pure tt

  unfoldable pub del : Bytes → Bytes → M B (Unit {0})
  del username path = temp_cd_and_do path true λ name inode. do
    gid ← get_current_user_gid username
    parent ← remove_file ext name inode gid
    pure tt

  unfoldable pub cat : Bytes → M B (Option Bytes)
  cat path = do content ← temp_cd_and_do path false (get_file_content ext); pure (some content)

  -- `copy`, where `host` reads a file of the host, and first the content of its source.
  unfoldable pub copy_source : (Bytes → Outcome Bytes) → Bytes → M B Bytes
  copy_source host source =
      on_some (strip_prefix (codes "<host>") source)
        (temp_cd_and_do source false (get_file_content ext)) λ path. lift (host path)

  unfoldable pub copy : (Bytes → Outcome Bytes) → Bytes → Bytes → Bytes → Client → M B (Unit {0})
  copy host username source target client = do
    content ← copy_source host source
    temp_cd_and_do target true λ name inode. do
      ids ← get_current_user_ids username
      parent ← create_file ext name rdwr inode true content (client.sent) ids
      pure tt

  unfoldable pub check : M B (Unit {0})
  check = check_bitmaps_and_fix ext

  unfoldable pub get_users_info : Bytes → M B (Option Bytes)
  get_users_info username = do
    users ← gets (λ w. w.sfs.user_infos)
    gid ← lift (get_user_gid username users)
    info ← lift (users_info gid users)
    pure (some (users_text info))

  unfoldable pub formatting : Bytes → M B (Unit {0})
  formatting username = do
    gid ← get_current_user_gid username
    if not (able_to_modify gid 0) then fail Error.not_in_root else force_clear ext

  abbrev pub set_method : CacheMethod → M B (Unit {0})
  set_method method =
      modify (λ w. record w { manager = record (w.manager) { cache_method = method } })

  -- `set_block_cache_method`; the task that it spawns for "tick" is `scheduled_sync`.
  unfoldable pub set_block_cache_method : Bytes → M B (Unit {0})
  set_block_cache_method method =
      if bytes_eq (to_lowercase method) (codes "instant")
      then set_method CacheMethod.immediately
      else if bytes_eq (to_lowercase method) (codes "exit")
      then set_method CacheMethod.on_exit
      else if bytes_eq (to_lowercase method) (codes "tick")
      then set_method CacheMethod.scheduled
      else fail Error.no_such_mode

  unfoldable pub scheduled_sync : M B (Unit {0})
  scheduled_sync = do
    scheduled ← gets (λ w. is_sync_scheduled w.manager)
    if scheduled then sync_all_block_cache ext else pure tt
