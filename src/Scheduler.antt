-- ===== src/Scheduler.antt =====
-- Kernel/scheduler.c and Kernel/process.c: the processes and the scheduler.
-- A `nodeP` and a `processP` is an address, 0 is NULL, and the fields of the structs are maps from
-- addresses. The walks along the ring run on fuel. CHILDREN_SEM and PID_SEM only order the callers.
pub mod Nodes
pub mod Processes
pub mod Creation
pub mod Leaks
pub mod Heap
pub mod Blocks
pub mod Switch
pub mod Ring
pub mod Choice
pub mod Turns
pub mod Removal
mod Tests
