-- ===== src/Softphone.antt =====
-- The softphone's own rules (apps/web/src/lib/telephony).
pub mod IncomingOffer
pub mod CallLine
