-- ===== src/RateLimit.antt =====
-- naco/core/ratelimit.py. Times are natural numbers of one unit; the source's are floats.
pub mod Window
pub mod Delay
pub mod Guard
