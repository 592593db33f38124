-- ===== src/CommandQueue.antt =====
-- app/services/command_queue.py: the consumer of the queue that wakes devices.
pub mod Consumer
pub mod Redelivery
