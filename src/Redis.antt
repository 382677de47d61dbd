-- ===== src/Redis.antt =====
-- What the services rely on of Redis, as its documentation has it: values with a time to live,
-- over the keys that the code builds. Times are milliseconds.
pub mod Keys
mod Interface
pub mod Memory
pub use Interface.{Redis}
