-- ===== src/Lib.antt =====
-- A model of the core of crinit, the init daemon of an embedded system, with the theorems on it.
--
-- Crinit reads tasks from configuration files into a task database. Its main loop starts the tasks
-- that are ready, each in a dispatcher thread, which runs the task's commands and reports the
-- task's states back to the database. A change of state fulfils dependencies of other tasks, which
-- may make them ready. Calendar timers are one more source of events. The threads share the
-- database and the pool of timers, each behind a mutex.
--
-- Files, and the code that they are about:
-- - Base: lists over the native numbers, C strings as lists of bytes, integers, the results 0 and
--   -1.
-- - EnvSet: src/envset.c. `EnvSet` is `crinitEnvSet_t` with its array of strings and NULLs; the
--   calls are `init`, `destroy`, `dup`, `get` and `put` (`crinitEnvSetSet`). EnvSet.Entry is about
--   one string NAME=VALUE, EnvSet.Slots about the array as a map, EnvSet.Laws about setting and
--   getting, EnvSet.Lifetime about making, copying and destroying.
-- - Task: the structures of inc/task.h; Task.State the flags of a state; Task.Copy the deep copy
--   `crinitTaskCopy` of src/task.c.
-- - Timer: src/timer.c and inc/timer.h. Timer.Calendar has the lengths of years and months,
--   Timer.Next `crinitNext` and `crinitNextYear`, Timer.Check `crinitCheckTimerDef` and
--   `crinitCheckTimerTime`, Timer.NextTime `crinitTimerNextTime`.
-- - World: the state that the threads share, and the effects of the code on it: a call returns a
--   value and a state, or waits for a mutex forever, or touches freed memory. World.Laws says what
--   it means that a call returns with a property, and composes such statements.
-- - TimerDb: src/timerdb.c, the pool of timers with their counts of references; TimerDb.Thread is
--   the loop of the thread that waits for them, `crinitTimerDBRunPool`.
-- - TaskDb: src/taskdb.c. TaskDb.Find is `crinitFindTask`, TaskDb.Deps the dependencies,
--   TaskDb.Records the calls that read or write one task, TaskDb.Ready the start of tasks with the
--   spawn function of src/procdip.c, TaskDb.Insert the insertion of tasks, the set-up of the
--   database and the hooks of src/optfeat.c, TaskDb.Provide the features that tasks provide,
--   TaskDb.Query the copies that are given to callers.
-- - ThrPool: src/thrpool.c. ThrPool.System puts the pool together with its workers and its watchdog
--   as threads that take steps, and ThrPool.Laws counts the workers.
-- - Rtim: the opcodes of src/rtimopmap.c. Rtim.Fields says what a message means, Rtim.Cmd is
--   `crinitParseRtimCmd`, `crinitRtimCmdToMsgStr` and `crinitBuildRtimCmd` of src/rtimcmd.c.
-- - Command: the handlers of src/rtimcmd.c. Command.Control has ENABLE, DISABLE and RESTART,
--   Command.Process STOP and KILL with the inhibition of waiting of src/procdip.c, Command.Notify
--   NOTIFY, Command.ShowTask STATUS, Command.Report TASKLIST, GETVER and SHUTDOWN, Command.Exec the
--   dispatch to them.
-- - Server: `crinitCheckPerm` and the body of the loop of `crinitConnThread` of src/notiserv.c; in
--   Server.Answer what a client gets, in Server.Workers the calls on the thread pool.
-- - Conf: the configuration of a task. Conf.Lex has the lexers of src/lexers.re for arguments,
--   escape sequences and variables, Conf.Text calls of the C library on texts; Conf.StrArr
--   `crinitConfConvToStrArr`, Conf.EnvVar `crinitConfConvToEnvSetMember` and Conf.Value the other
--   conversions of src/confconv.c; Conf.Map the tables of keys of src/confmap.c; Conf.Ini
--   `crinitIniHandler` and the list of `crinitParseConf`; Conf.Handler and Conf.Ids the handlers of
--   src/confhdl.c, the latter of USER and GROUP; Conf.Load `crinitTaskCreateFromConfKvList`,
--   `crinitTaskSetFromConfKvList` and `crinitTaskMergeInclude` of src/task.c.
-- - Dispatch: the dispatcher thread of src/procdip.c. Dispatch.Exit is about its two labels,
--   Dispatch.End about the whole end of a thread whose command failed, and Dispatch.Inhibited about
--   a thread that waits for a process while that is inhibited.
-- - Examples: states for the tests.
-- The modules called Tests apply the theorems to concrete values.
--
-- Every operation is a function of the state. A step of another thread can only come where the code
-- has given the mutex back, so a call that holds the mutex throughout is one step. The answers of
-- the operating system, such as whether an allocation succeeds, are part of the state (`Os`):
-- allocations are numbered in the order in which a call makes them. A mutex is not recursive, so
-- locking it twice in one thread waits forever (`blocked`). An array with its size is a list, and a
-- freed element is the slot `freed`, which no call may read (`fault`). A state is quiet (`IsQuiet`)
-- if both mutexes are free and can be locked, the pool of timers is well formed, and no element of
-- the task array is freed. In Conf the allocations of a call have addresses (`Mem`): a list of
-- places leads from the call to an allocation in a call inside of it. What the C library and the
-- system answer there (`bsearch`, `strtol`, the databases of users and groups, the parsed files) is
-- the record `Host`. A parsed file without an option is an empty list; in the code its list has one
-- element whose key is not set, so reading it is a `fault`. Conf.Ini gets the pairs that
-- `ini_parse_string` of inih reads.
--
-- Bounds: The search for the next time makes at most 42 rounds, as in the code. The loops that
-- remove elements are on fuel, which is the number of elements at the start and is enough, because
-- each round goes one element on. The loops over the tokens of a text have its length and one round
-- more, because each token but the last takes a byte; files are included one deep, because an
-- INCLUDE in an included file is refused. Fields of type `uint8_t` and `uint16_t` are reduced where
-- the code converts to them; other integers are not bounded. The count of failures of a task is an
-- `int` in the code, whose overflow is not modelled. `gmtime_r`, the parser of timers
-- (src/timer_parser.re, which is generated code) and the time of the call are parameters of the
-- functions that use them.
--
-- Not modelled: the commands ADDTASK and ADDSERIES, which read configuration files, are arguments
-- of the dispatch; the reading of files with their signatures, and of the kernel command line, the
-- options of a series and the store of the global options, the launcher's arguments, the expansion
-- of variables in stop commands, the calls on sockets, the clients, the shutdown itself, the lexers
-- of the kernel command line and of timers, cgroups, capabilities and elos are left out. The
-- dispatcher thread is modelled alone: no other thread acts while it waits for a process. `strtol`,
-- the version and what the system answers about processes and sockets are arguments. The model is
-- of a build without elos, cgroups and capabilities. Printing to the log is left out.
pub mod Base
pub mod Command
pub mod Conf
pub mod Dispatch
pub mod EnvSet
pub mod Examples
pub mod Rtim
pub mod Server
pub mod Task
pub mod TaskDb
pub mod ThrPool
pub mod Timer
pub mod TimerDb
pub mod World
