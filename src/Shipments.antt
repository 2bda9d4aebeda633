-- ===== src/Shipments.antt =====
-- modules/shipments: the life of a shipment. `StateMachine` is its table of transitions, `Status`
-- the update of a status with all its checks and effects.
mod Tests
pub mod StateMachine
pub mod Transitions
pub mod Status
pub mod Delivery
pub mod Risk
pub mod Texts
pub mod Fraud
pub mod Create
pub mod Pages
