-- ===== src/Position/Queue.antt =====
-- app/services/position/order_queue.py: the priority queue of exchange orders of one account.
pub mod Task
pub mod Execute
pub mod State
pub mod Loop
