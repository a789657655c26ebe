-- ===== src/Lib.antt =====
-- A voluntary-computing system, and a kernel module beside it: machines lend their idle time to others.
-- An employer finds employees by their UDP broadcasts, connects to them and sends them chunks of
-- work; an employee puts what it receives into a buffer, whose entries a worker hands to a script
-- over a Unix socket, and sends the results back. A task scheduler splits files into chunks and
-- gives the chunks out, and a resource manager keeps the borrowed work inside cgroups.
--
-- Paths below are under src/uspacehelper/ of the repository. A module has the name of its C file or
-- header, a definition the name of the function or type it translates, without the prefix `volcom_`.
--
--   Prelude (and below): lists indexed by native numbers, C strings, signed integers, decimal text,
--     Boolean tests. Memory: what a pointer to an allocated array may be.
--   Cyclic, Fifo: cyclic arrays that hold a list, and the queue that buffers are compared with.
--   TaskManagement: volcom_agents/task_management.c. Ring has the array, the counters and the
--     capacity; Queues has the two instances, the buffer of chunks and the queue of results.
--   Uscheduler: volcom_uscheduler/volcom_uscheduler.c. The buffer is a state, the blocking calls
--     of any number of threads are the relation Step, with what waits and wakes in Monitor.
--   Scheduler: volcom_scheduler/task_scheduler.c. The two tables are lists; a double is abstract.
--   Rcsmngr: volcom_rcsmngr/volcom_rcsmngr.c. Files has the writes of limits, Manager the creation,
--     Pids the processes, Deletion the deletion and its loop.
--   Net: volcom_net/volcom_net.c. Inet and Unix open and close the sockets, Messages uses them. The
--     Unix-socket functions stand in the same words in volcom_net/protocol.c.
--   Protocol: volcom_net/protocol.c. The framing of JSON messages, and Connections.
--   Employer: volcom_agents/employer/volcom_employer.c. The roster;
--     Assignments has the rounds over the queue of tasks, Distribution the round-robin, which the
--     program does not call.
--   MainLoop: the employer's thread, the same file: queueing the files, and the rounds of the loop.
--   Transfer: the transfer of files between the two agents. It has the senders of volcom_employer.c
--     and volcom_employee.c, Receiving the employee's receiver, Results the employer's.
--   Employee: volcom_agents/employee/volcom_employee.c. The reader of a script's JSON answer; Worker
--     has a round of the worker, with the heap, Connection the loop over an employer's messages, and
--     Mode the employee from its start to its end.
--   Sysinfo: volcom_sysinfo/volcom_sysinfo.c. The configuration file; Proc has what is read of
--     /proc/meminfo, and Cpu of /proc/cpuinfo and /proc/stat.
--   Utils: volcom_utils/net_utils.c. The configuration store.
--   Lkm: src/lkm/volcom_rsucmngr.c, beside src/uspacehelper/. The ioctl of the kernel module;
--     Registration has what the module registers.
--   Main: volcom_main.c. The console and main, as the calls that they make of the other parts.
--
-- The parts meet in few places: MainLoop runs the functions of Employer on what Transfer.Results
-- receives, Transfer sends and reads the messages of Protocol, Employee.Connection and Employee.Worker
-- share the rings of TaskManagement, whose refinement of a queue their proofs use, Sysinfo has the
-- configuration of Rcsmngr, Employer takes the answers of Protocol's connections as arguments,
-- Protocol.Connections shares the kernel of Net, and TaskManagement and Rcsmngr share Memory.
--
-- A fault (a null or freed pointer used, a read out of range) is `none` where the result is an
-- Option, and -1 is `failed`, `false` or `minus_one`. Arithmetic is on numbers, with `% 2 ^ w` where
-- the source can wrap around. Loops are recursion on a list or on fuel: in remove_task the
-- chunks, in remove_stale_employees the employees, in distribute_new_tasks the attempts that the
-- code itself counts, in receive_complete_json_response what the script gives, in recv_json the
-- bytes to read (each read gives at least one), in the transfers the bytes of the file, in
-- delete_main_cgroup the children. Where the fuel is an argument, the theorem on the function says how
-- much is enough. The employer's main loop and the employee's connection are run for any number of
-- rounds, each with what it meets from outside, and the employee's worker runs whole rounds between
-- those of the connection. A configuration has no value below 0.
--
-- What the kernel, the C library, the allocator and cJSON answer are arguments. Output to the console
-- is left out. The making and removal of directories is seen by its answer alone. In the blocking
-- buffer, a thread runs from taking the mutex to giving it up as one step, and the other locks do
-- not appear, since the code under them is run by one thread at a time.
--
-- Not modelled: the employee's broadcaster and the threads that start the script, percentages in
-- double, what the calls of Main do in the parts that it calls, and what only shows things: tests,
-- menus, scripts and the printing functions.
pub mod Prelude
pub mod Memory
pub mod Cyclic
pub mod Fifo
pub mod TaskManagement
pub mod Uscheduler
pub mod Scheduler
pub mod Rcsmngr
pub mod Employer
pub mod Employee
pub mod Net
pub mod Protocol
pub mod Transfer
pub mod MainLoop
pub mod Utils
pub mod Sysinfo
pub mod Lkm
pub mod Main
