-- ===== src/Handle.antt =====
-- The wrapper's owning classes, seen alike: objects at addresses, each with a pointer to an object
-- of the C library that its destructor gives back. The classes of MessageView.hpp,
-- SubscriptionSync.hpp, Kv.hpp and Options.hpp fill the interface `Handle`.
mod Objects
mod Classes
pub mod Abstract
pub mod Ownership
unfoldable pub use Objects.*
unfoldable pub use Classes.*
