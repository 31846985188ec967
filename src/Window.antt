-- ===== src/Window.antt =====
-- flight/window_scheduler.py: the contact windows. Times are clock readings in nanoseconds; a
-- method takes one argument for each call of `time.monotonic()` that it makes, in that order.
-- The mutex is part of the state, so that taking it twice is a value, `blocked`.
pub mod Locked
pub mod Methods
pub mod States
pub mod Progress
pub mod Callbacks
pub mod Pacing
pub mod Cycle
pub mod Force
mod Tests
