-- ===== src/Errors.antt =====
-- include/tamga.h: the error codes, TAMGA_OK apart.
pub data ErrorCode : Type 0 where
  invalid_pem invalid_base64 invalid_json signature_invalid decryption_failed : ErrorCode
  unsupported_scheme null_argument panic unknown length_invalid expired : ErrorCode
  out_of_memory transport no_transport api rate_limited unauthorized forbidden : ErrorCode
  not_found server check_in_not_required license_not_encrypted : ErrorCode
  license_key_missing ttl_invalid scheme_not_supported fingerprint_taken : ErrorCode
  dataset_invalid pid_taken machine_limit_exceeded core_limit_exceeded : ErrorCode
  memory_limit_exceeded disk_limit_exceeded too_many_processes : ErrorCode
  license_suspended license_expired license_not_allowed unknown_signing_key : ErrorCode
  signing_key_not_published key_id_not_applicable : ErrorCode
  invalid_fingerprint_component signing_key_missing secret_key_missing : ErrorCode
  meter_limit_exceeded : ErrorCode
