-- ===== src/CallFlow.antt =====
-- What each webhook and request does to a live call
-- (apps/call-controller/src/calls/call-flow.ts): the decisions that are written to the call's state.
pub mod Transfers
pub mod Answers
pub mod LegEnds
pub mod Teardown
pub mod Ringing
pub mod Writes
pub mod Invariant
pub mod Drafts
pub mod Continuity
pub mod Ownership
pub mod Ending
