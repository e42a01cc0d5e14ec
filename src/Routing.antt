-- ===== src/Routing.antt =====
-- Where a call goes: inbound by the routing entry of the number that was called, outbound by a grant
-- (apps/call-controller/src/routing, apps/call-controller/src/calls/outbound-grant.ts).
pub mod BusinessHours
pub mod InboundPlan
pub mod OutboundGrant
