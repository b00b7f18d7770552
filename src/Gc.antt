-- ===== src/Gc.antt =====
-- src/codegenie/plugins/cache_gc.py: the garbage collector of the bundle cache. A time is a number
-- of nanoseconds. What a walk meets, the clock's readings and the event emitter are arguments.
pub mod Ttl
pub mod Walking
pub mod Collector
pub mod Swept
pub mod Runs
pub mod Spacing
mod Tests
