-- ===== src/Timer/Heap.antt =====
-- The heap of common/timer/timer.go.
pub mod Access
pub mod Order
pub mod Up
pub mod Down
pub mod Ends
pub mod Methods
