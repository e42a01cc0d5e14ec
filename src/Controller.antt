-- ===== src/Controller.antt =====
-- What a handler of the controller does, step by step (apps/call-controller/src/calls/call-flow.ts,
-- apps/call-controller/src/calls/telephony.service.ts): it reads and changes one call, asks the
-- outside, and leaves effects. An error that is thrown keeps what was done before it.
pub mod Effects
pub mod Actions
pub mod Twilio
pub mod Teardown
pub mod Transfers
pub mod Rings
pub mod Legs
pub mod Webhooks
pub mod Requests
pub mod Beginnings
pub mod Service
pub mod Once
