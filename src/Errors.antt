-- ===== src/Errors.antt =====
-- detail/error.hpp and error.cpp: what a request can fail with.
use Prim.Native.String.{String}

pub data ErrorCode : Type 0 where
  no_error : ErrorCode
  error_no_leader : ErrorCode
  error_incorrect_proposal : ErrorCode
  error_inconsistent_response : ErrorCode
  error_connection_close : ErrorCode
  error_no_majority : ErrorCode

abbrev pub to_string : ErrorCode → String
to_string no_error = "No error"
to_string error_no_leader = "No leader"
to_string error_incorrect_proposal = "Incorrect proposal id"
to_string error_inconsistent_response = "Inconsistent response"
to_string error_connection_close = "Connection closed"
to_string error_no_majority = "No majority"
