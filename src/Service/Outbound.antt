-- ===== src/Service/Outbound.antt =====
-- internal/service/outbound.go: the queue of the messages to deliver.
pub mod Queue
pub mod Pick
pub mod Attempt
pub mod Fairness
pub mod Numbering
pub mod Holding
pub mod Retries
pub mod Steps
pub mod Durable
pub mod Order
pub mod Waits
pub mod Draining
pub mod Loading
