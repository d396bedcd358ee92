-- ===== src/ErrorCode.antt =====
-- error_code.h: the reasons that an update reports.

-- `enum CauseCode`.
pub data CauseCode : Type 0 where
  no_cause args_parsing_failure stash_creation_failure file_open_failure : CauseCode
  lseek_failure fread_failure fwrite_failure fsync_failure libfec_failure : CauseCode
  file_get_prop_failure file_rename_failure symlink_failure set_metadata_failure : CauseCode
  tune2fs_failure reboot_failure package_extract_file_failure vendor_failure : CauseCode

-- `enum ErrorCode`.
pub data ErrorCode : Type 0 where
  no_error low_battery zip_verification_failure zip_open_failure : ErrorCode
  bootreason_in_blacklist : ErrorCode

-- `enum UncryptErrorCode`.
pub data UncryptErrorCode : Type 0 where
  uncrypt_no_error uncrypt_error_placeholder uncrypt_timeout_error : UncryptErrorCode
  uncrypt_file_remove_error uncrypt_file_open_error uncrypt_socket_open_error : UncryptErrorCode
  uncrypt_socket_write_error uncrypt_socket_listen_error uncrypt_socket_accept_error :
      UncryptErrorCode
  uncrypt_fstab_read_error uncrypt_file_stat_error uncrypt_block_open_error : UncryptErrorCode
  uncrypt_ioctl_error uncrypt_read_error uncrypt_write_error : UncryptErrorCode
  uncrypt_file_sync_error uncrypt_file_close_error uncrypt_file_rename_error : UncryptErrorCode
  uncrypt_package_missing_error : UncryptErrorCode
