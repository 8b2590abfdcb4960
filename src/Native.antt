-- ===== src/Native.antt =====
-- The native client: its session store and token manager (native/src/auth), the interceptor of its
-- transport (native/src/lib/rpc.ts), the account flows (native/src/modules/auth/api),
-- and the screens.
pub mod Payload
pub mod Session
pub mod Tokens
pub mod Flight
pub mod Interceptor
pub mod Account
pub mod Forms
pub mod Display
pub mod Sheet
pub mod Files
pub mod Home
pub mod Queries
pub mod Env
pub mod Root
