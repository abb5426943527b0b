-- ===== src/State.antt =====
-- What the whole program keeps: its structs, its global variables as one record, what a call may
-- end with, and the third-party code as a record of functions.
mod Data
mod Crates
mod Errors
mod Monad
pub use Data.*
pub use Crates.*
pub use Errors.*
pub use Monad.*
