-- ===== src/Simulate.antt =====
-- src/kv_aware_router/simulate.py: the fleet in simulated time. Times are whole nanoseconds, and a
-- scaled or slowed time is rounded down to one. The heap of events is the list of them in the order
-- in which they are taken out.
pub mod State
pub mod Churn
pub mod Loop
pub mod Cases
pub mod Totals
pub mod Starts
pub mod Ends
pub mod Handles
pub mod Lines
pub mod Serves
pub mod Arrives
pub mod Counts
pub mod Running
pub mod Completes
