-- ===== src/State/Errors.antt =====
-- The errors that the program makes, one constructor for each message. The
-- texts of the messages are not kept.

pub data Error : Type 0 where
  no_valid_bit cannot_read_buffer no_valid_block no_enough_blocks object_not_found : Error
  cannot_serialize cannot_deserialize no_enough_block file_size_too_large : Error
  filename_too_long extension_too_long dirent_not_found special_directory already_exist : Error
  cannot_rd_a_file insufficient_permissions cannot_read_from_client : Error
  not_a_directory no_such_directory file_already_exists file_size_limit not_a_file : Error
  no_such_file cannot_open_directory user_exists incorrect_password user_not_exists : Error
  uid_not_exists no_such_user not_in_root super_block_broken no_such_mode error_arg : Error
  fs_file_missing read_zero_byte : Error
