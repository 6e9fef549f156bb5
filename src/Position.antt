-- ===== src/Position.antt =====
-- app/services/position: the life of one position, and the queue of the orders that protect it.
pub mod Fsm
pub mod Queue
