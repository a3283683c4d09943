-- ===== src/Base/Errno.antt =====
-- libx/x/base/error.h: the error codes.
pub data Errno : Type 0 where
  ok unknown invalid_arg no_memory invalid_state sys_error not_found already_exists : Errno
  cancelled not_supported dns_not_found dns_temp_fail dns_error timeout again busy : Errno
  in_progress invalid_context pending prompt_too_long : Errno
