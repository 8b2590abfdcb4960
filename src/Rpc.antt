-- ===== src/Rpc.antt =====
-- What the clients see of `@connectrpc/connect`: the status codes. What the package does with
-- a thrown value, `ConnectError.from(error)`, is an argument of its users.

-- `Code` of the package, all its members.
pub data Code : Type 0 where
  canceled unknown invalid_argument deadline_exceeded not_found already_exists : Code
  permission_denied resource_exhausted failed_precondition aborted out_of_range : Code
  unimplemented internal unavailable data_loss unauthenticated : Code
