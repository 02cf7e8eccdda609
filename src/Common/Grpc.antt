-- ===== src/Common/Grpc.antt =====
-- The status codes of gRPC that the services use.

pub data StatusCode : Type 0 where
  code_not_found code_invalid_argument code_unauthenticated code_already_exists : StatusCode
  code_failed_precondition code_internal code_unavailable code_deadline_exceeded : StatusCode
  code_resource_exhausted code_aborted code_other : StatusCode
