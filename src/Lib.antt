-- ===== src/Lib.antt =====
-- DrQueue, the distributed render queue manager: models of the master's side of the program, and
-- theorems on them.
--
-- The master keeps one database in shared memory: an array of jobs, an array of computers, and for
-- every job a table of its frames in a segment of its own. Requests arrive over sockets, and each
-- is handled by a process that works on the database under one semaphore. A slave that has a free
-- slot asks for work: the master looks through the jobs in the order of their priority, checks that
-- the computer may work on the job, and hands out the first waiting frame. The slave reports the
-- end of the task, and the frame becomes finished, failed, or waiting again. In between, the master
-- counts the frames of every job anew and checks that assigned frames are being rendered.
--
-- Modules:
-- Prelude: Boolean tests and machine words (Tests), arrays as functions with searches and counts
--   (Tables), C strings (Texts), network byte order (Bytes).
-- Frame, Job: libdrqueue/job.h and the operations of libdrqueue/job.c on one record. Job.Numbering is
--   job_nframes and the conversions between the number and the index of a frame; Job.Status is
--   job_stop, job_continue and the names of states; Job.Priority is priority_job_compare; Job.Network is
--   job_bswap_to_network and job_bswap_from_network.
-- Shm: the shared memory segments, with the functions that get and attach them.
-- Task: libdrqueue/task.c. Computer: libdrqueue/computer.c and libdrqueue/computer_status.c;
--   Computer.Available is computer_available and Computer.Pools is libdrqueue/computer_pool.c.
-- Database: struct database with its lock. Database.Lookup are the searches over the arrays;
--   Database.Consistent is the invariant between the counters of a job and its frame table;
--   Database.Limits is job_limits_passed; Database.Registry is job_init_registered and job_delete;
--   Database.Assign is job_available and what records the assignment; Database.Frames is
--   job_frame_waiting and job_check_frame_status; Database.Update is job_update_info; Database.Hosts
--   are the blocked hosts of a job.
-- Request: the handlers of libdrqueue/request.c. Request.AvailJob is handle_r_r_availjob, the search for
--   work and the exchange with the slave; Request.TaskFini is handle_r_r_taskfini. Request.FrameOrders
--   are the orders of clients for one frame (handle_r_r_jobfwait, jobfkill, jobffini, jobfrstrqd,
--   jobfkfin), and Request.JobOrders those for a job (handle_r_r_stopjob, contjob, hstopjob, rerunjob,
--   deletjob).
--   Request.Settings are the handlers that set one number of a job (handle_r_r_joblms, joblps, joblnmcs,
--   joblnmccs, jobpriup), Request.HostOrders those for its blocked hosts (handle_r_r_jobblkhost,
--   jobdelblkhost, jobunblkhostname), Request.Range is handle_r_r_jobsesup, and Request.SlaveExit
--   handle_r_r_slavexit.
-- Communications: libdrqueue/communications.c. Communications.Wire is a connection, and
--   Communications.Delivery what it means that two ends understand each other; Communications.Records
--   are the functions for one structure, Communications.Lists those for texts, lists and the status of
--   a computer, Communications.Memory the bytes of a structure, and Communications.RoundTrips,
--   ListTrips and StatusTrip the theorems on both ends. Communications.Variables are the environment
--   variables of a job and Communications.Pools the limits and the pools of a computer, with
--   VariablesTrip and PoolsTrip for both ends, Communications.Jobs and JobTrip whole jobs.
--   Communications.Stream are the loops of dr_read
--   and dr_write over the calls of the system.
-- Conversation: both sides of libdrqueue/request.c where a slave and the master talk:
--   update_computer_status with handle_r_r_ucstatus, register_slave with handle_r_r_register, and
--   update_computer_limits with handle_r_r_uclimits (Conversation.Limits), and, of a client that submits
--   a job, register_job with handle_r_r_regisjob (Conversation.Submission, with Accepted and
--   Submitted for what they have after it).
--   Conversation.Computers is a whole computer, send_computer with recv_computer.
-- EnvVars: libdrqueue/envvars.c. EnvVars.Environment is the view of a list of variables as what each name
--   has for a value.
-- Rendering: four kinds of calls of the master for one job as steps, with what each takes, any number of
--   them in any order, and the board of the job, on which each is a move. The orders of clients are not among them.
-- Tests: a small database, at which the theorems are applied.
--
-- How the state is modelled: the database is a record that operations take and return, and an array
-- is a function from its index. Unsigned fields are natural numbers, with the wrap-around of every
-- operation written out. An id or an index of -1 is `none`. A string is the list of its characters
-- before the terminating zero. The message that kills a task on a slave is a result of the handler.
-- The semaphore is a flag, `locked`: an operation is modelled from the point at which it has the
-- semaphore, and calls that interleave are calls in sequence. What `time` and the environment
-- variable USER return are fields of the database. Whether the system has a segment left, and lets
-- a process attach one, are fields of the shared memory. The loops run over arrays of a fixed size
-- or over the frames of a job, by structural recursion on the rounds left, so that they end; the
-- one loop whose end is computed, over the frames of a block, makes at most block_size rounds.
-- `qsort` is modelled as a sort by insertion: under priority_job_compare no two of the entries are
-- equal, so that every sort gives the same list. Allocation with malloc succeeds. The semaphores of
-- computers and pools are compiled out by the build file (SConstruct), and are left out here.
--
-- A connection is what is still to be read, what was written, and how much more the peer takes; its
-- functions are a monad that fails or gives a value. The objects on it are structures whose words
-- have the order of the wire; the two ends have a byte order each, so that a word that is not
-- swapped arrives changed. The size of a structure is a parameter of each end, because two builds
-- may disagree. The system's `read` and `write` are parameters of Communications.Stream, with the
-- laws that its record states; the loops have one round of fuel for each byte, and one more, and a
-- round that is not the last moves at least one. The variable bleft of these loops is an int: a
-- length of 2 ^ 31 or more makes it negative, which the model says. Where the code uses a pointer
-- that has no value, the result says so and the call is followed no further.
--
-- Not modelled: the setting up of connections, logs, configuration, the script generators, the
-- graphical manager, the command line tools and the bindings; the handlers of libdrqueue/request.c
-- other than these; the start of processes on the slave.
pub mod Prelude
pub mod Frame
pub mod Job
pub mod Shm
pub mod Task
pub mod Computer
pub mod Database
pub mod Request
pub mod Communications
pub mod Rendering
pub mod EnvVars
pub mod Conversation
pub mod Tests
