-- ===== src/Lib.antt =====
-- dist-command-exec, a service that takes jobs over gRPC, queues them in a master, and dispatches them
-- to worker nodes, which run them as commands; with its client library, its
-- command line and its Kubernetes operator.
--
-- Files and code:
--   Prelude          the shared names; Prelude/Int: int and int32 with their wrap-around; Prelude/Map: Go
--                    maps as association lists, and what a `range` over one may yield
--   Types            pkg/types/task.go and pkg/types/result.go
--   Master/Store     internal/master/store.go: jobs and results by ID
--   Master/Paging    the loop that ListJobs and ListTasks share
--   Master/Scheduler internal/master/scheduler.go: the bounded queue and the table of tasks
--   Master/Registry  internal/master/registry.go: worker nodes, heartbeats and health checks
--   Master/Balancer  internal/master/balancer.go: the four balancers
--   Master/Scaler    internal/master/scaler.go: the decisions of the auto-scaler
--   Master/State     the state that these parts make up together
--   Master/Dispatcher internal/master/dispatcher.go: one dispatch, its retries, and the client pool
--   Master/Server    internal/master/server.go: the handlers; Master/Server/Wire: their messages
--   Master/System    the goroutines of the master as a step relation. System/Core has the invariant of
--                    queue, table, store and dispatchers; Moves, Handlers, Dispatching and Invariant
--                    carry it through the steps; History, Onwards, Future and Final are about the
--                    states that follow, Life is a specification of a job without the rest of the
--                    system, Jobs and Completed are about what clients see, Pool about the connections
--                    to workers, Scaling about the replicas that it asks for, and Timing about the
--                    timeouts of the registry
--   Executor         pkg/executor/executor.go: tasks, results and the interface of an executor;
--                    Executor/Registry: registry.go; Executor/Command: command.go, with its limits in
--                    Command/Limits and the ends of its processes in Command/Exit
--   Worker           internal/worker. Runner: runner.go, one call at a time; Crew: the same calls, each cut
--                    at its accesses to shared state, as a step relation, with its counters in
--                    Crew/Count and Limit, its end in Drain, its table in Cancel; Server: the handlers of
--                    server.go; Registration: registration.go against the master's handlers; Commands: a
--                    command from the dispatcher's request to the job's status; Process: Shutdown
--                    of server.go
--   Config           internal/config/worker.go: lists of commands, and the worker's ID; Config/Texts: texts
--                    as code points and as strings
--   Client           pkg/client/client.go over a record of the master's calls; Client/Hosted fills it with
--                    the master of Master/Server; Client/Journey follows a command from the client to the
--                    worker's process
--   Operator         internal/operator/controller.go over the same record; Operator/Resource: the
--                    resource and updateStatus; Operator/Watching: Run and the events of the informer,
--                    with the panic of updateStatus in Watching/Panics
--   V1               api/v1: the Go types of the resource, and the JSON objects that their tags describe
--   Distctl          cmd/distctl/main.go over the calls of the client library and ListJobs; Distctl/Hosted
--                    fills them with the master, Submitting and Reading are about single commands, and
--                    Sessions about commands among the steps of Master/System
--   Mains            cmd/worker/main.go, cmd/operator/main.go and the log level of cmd/master/main.go: from
--                    the settings to executors and servers
--   Examples         concrete runs
--
-- How the code is modelled. A function of the code keeps its name in snake_case, takes the state
-- and returns the new one. Tasks are shared by pointer between the queue, the table and the
-- dispatchers, so the scheduler has a heap from pointers to tasks. An int wraps at 64 bits and an
-- int32 at 32; a time is a number of nanoseconds, and a difference of times saturates as time.Sub
-- does. A `range` over a map is a list of its entries that the caller gives, in any order. IDs,
-- times, and what the workers and the Kubernetes API answer are arguments. In Master/System a
-- step is what a goroutine does between two points where it waits: a whole handler, a health
-- check, or one part of dispatchTask (taking a task, selecting a node, sending, the reply,
-- requeueing), so that handlers and dispatches interleave at these points. Cancel is two steps,
-- its check and its write, since what comes between them matters to the job. Within a step the
-- code holds its locks in turn; other interleavings of the critical sections of one step are not
-- modelled. SetNestedField and the end of the process are as documented: it panics on values that
-- are no JSON, and nobody recovers. No function needs fuel: all loops run over lists, but for the
-- digits of a number, whose fuel is one more than the number. In Worker/Crew a step is one access
-- of a call of Run to the runner: a counter, the table or the wait group. A call of the worker to
-- the master arrives, or is lost before or after the master has served it. What json, os/exec,
-- the API server of Kubernetes, time.ParseDuration and the format of a time do are parameters.
-- Settings are lists of code points where the code cuts them into parts.
--
-- Not modelled: Run of the worker, whose heartbeat loop goes on beside Shutdown, the parsing of
-- flags and the number of arguments (cobra), the encoder of JSON, loading of the configuration
-- from the environment (envconfig), signals, listeners, the graceful stop of the gRPC servers,
-- the informer's own queue and resynchronisation (its events are given as a list), logging and
-- error messages beyond their first words, and the order of a context's end and a tick in the
-- client's loop, which is given as a list of events.
pub mod Prelude
pub mod Types
pub mod Master
pub mod Executor
pub mod Worker
pub mod Config
pub mod Client
pub mod Operator
pub mod V1
pub mod Distctl
pub mod Mains
pub mod Examples
