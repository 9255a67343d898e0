-- ===== src/Bus.antt =====
-- packages/events/in_memory.py: the process-local event bus.
pub mod Subjects
pub mod Subscription
pub mod Conservation
pub mod Broker
