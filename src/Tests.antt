-- ===== src/Tests.antt =====
-- Examples: the theorems at concrete inputs, and runs of the model on small ones.
mod Queues
mod Schedules
mod Semaphores
mod Pipes
mod Keys
mod Switches
mod Families
mod Heaps
mod Calls
mod Lines
mod Copies
