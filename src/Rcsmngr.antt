-- ===== src/Rcsmngr.antt =====
-- src/uspacehelper/volcom_rcsmngr/volcom_rcsmngr.c and volcom_rcsmngr.h: the manager of the main
-- cgroup and its child cgroups. What the operating system and the allocator answer during a call is
-- an argument, and so is each function's effect on files: a list of what it wrote where.
-- An array is a block with its used entries, beside the counts and capacities that the code keeps.
-- `none` is a fault: a null or freed pointer is used, or freed again.
pub mod Files
pub mod Manager
pub mod Pids
pub mod Deletion
pub mod Faults
pub mod Membership
pub mod Creation
mod Tests
