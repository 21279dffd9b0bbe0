-- ===== src/Effects/Ends.antt =====
-- A postcondition of an action: what holds of the value and the trace if it returns, and what
-- holds of the trace if it ends with an error or panics; one rule for each way to build an action.
pub mod Rules
pub mod Continued
pub use Rules.{
  Post, Ends, Ends-bind, Ends-pure, Ends-throw, Ends-deref, Ends-first, Ends-embed, Ends-lift,
  Ends-consult, Ends-call, Ends-call_reply, Ends-if, Ends-mono, Ends-weaken, Ends-any, Ends-attempt,
}
pub use Continued.{
  Ends-deref_bind, Ends-first_bind, Ends-call_bind, Ends-request_bind, Ends-returns, Ends-some_bind,
  Keeps, Ends-trace, IsClosed,
}
