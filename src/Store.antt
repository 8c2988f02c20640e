-- ===== src/Store.antt =====
-- internal/store: the configuration store. `Model` has the records of model.go, `State` the struct
-- of store.go with its persistence, and one child each has the operations on routes, upstreams,
-- IP policies and API keys.
pub mod Model
pub mod State
pub mod Routes
pub mod Upstreams
pub mod Policies
pub mod Keys
pub mod Calls
mod Commit
pub mod Integrity
pub mod Names
pub mod Outcomes
pub mod Keying
pub mod Restart
