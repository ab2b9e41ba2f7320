-- ===== src/Share.antt =====
-- internals/app/share: the public links, and the operator's side of a delivery.
pub mod Serve
pub mod Operator
pub mod Resends
pub mod Closed
pub mod Filename
pub mod Delivery
pub mod Hidden
