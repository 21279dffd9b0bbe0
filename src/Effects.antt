-- ===== src/Effects.antt =====
-- What a controller does to the outside: the calls of one run and of all runs before it are a
-- trace, and a function of the program is a state-passing action over that trace.
pub mod Errors
pub mod Values
pub mod Events
pub mod Outside
pub mod Action
pub mod Ends
pub mod Known
pub mod History
pub mod Bounded
pub use Errors.*
pub use Values.{Json, Items, Fields}
pub use Events.*
pub use Outside.{Env, GraphqlClient, HttpResponse}
unfoldable pub use Action.*
