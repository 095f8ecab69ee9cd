-- ===== src/Nats.antt =====
-- The boundary to the C library (nats.h): the calls that the wrapper makes, the library as a
-- parameter, runs that may be undefined, and the views that C++ and C exchange.
mod Calls
mod Interface
mod Runs
mod Strings
pub mod Views
pub use Calls.*
pub use Interface.*
pub use Runs.*
unfoldable pub use Strings.*
