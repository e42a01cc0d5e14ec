-- ===== src/Controller/Once.antt =====
-- How often the start and the end of a call are reported over its life
-- (apps/call-controller/src/calls/call-flow.ts).
pub mod Writes
pub mod Twilio
pub mod Teardown
pub mod Transfers
pub mod Rings
pub mod Legs
pub mod Webhooks
pub mod Requests
pub mod Beginnings
pub mod Life
