-- ===== src/Lib.antt =====
-- jobmaster: a gRPC server that runs commands for authenticated clients, each command as a job in a
-- cgroup of its own, and its client.
--
-- Parts, and the files that model them:
--   Authz      api/authz/authz.go: the roles and the table of authorized clients.
--   Authn      api/authn/authn.go: the checks of a certificate.
--   Server/Identity  api/server/validate_client.go: the interceptors that put the client's name and role
--              into the context of a request, and `ClientInfoFromContext`, by which the handlers read them.
--   Server/Rpc  api/server/server_impl.go: the handlers of the four RPCs, over the context that the
--              interceptors leave and the job library.
--   Server/Stream  api/server/server_impl.go: the two loops of `StreamOutput`. Stream/Race is the second of
--              them beside the watcher (jobslib/watcher.go), as a step relation over the locks.
--   Jobslib    jobslib: the job library. Job is job.go; Cgroups, with Setup and JobDirs, is cgroups.go,
--              and Cgroups/Teardown says when the directories are taken down;
--              Store, Query, Start, Finish and Stop are jobslib.go: the state with its look-up, the reading
--              operations, `Start`, its goroutine, and `Stop`. WaitForFile and Watcher are the functions of
--              these names in watcher.go, and Inotify the events that the second reads. History has all
--              interleavings of the critical sections of jobslib.go as a step relation; History/Spec is an
--              abstract library of owners and phases, and History/View how the library stands for it.
--   Server/Run  api/server/server.go: the construction of the server out of the job library and the TLS
--              configuration, and its life. Server/Main is the function of cmd/server/main.go.
--   Client/Connection  api/client/client.go: the TLS configuration and the connection of the client.
--   Client/Calls  api/client/client_impl.go: the calls of the RPCs over a stub, and what they print.
--              Calls/Served puts the handlers of the server behind the stub, and Calls/Relayed the messages of
--              its stream.
--   Client/CommandLine  cmd/client/main.go: the parsing of the arguments. Client/Main is its function main.
--   Base, Result, FilePath, Os: texts, maps and lists; the results of Go calls; path/filepath; the world.
--
-- How state and effects stand:
--   A Go string is a list of code points. Case mapping beyond ASCII is a parameter, `CaseMap`. An error
--   stands by its format string and its cause. A result is a value, an error, a panic, or a loop that
--   has used up its fuel. The kernel, the file system, the clock, the KSUID generator and the context
--   are a parameter, `Env`: each reply may depend on all the calls before it. The monad `Io` keeps the
--   log of these calls, so that a theorem can state which calls were made and in which order.
--   The library's maps are association lists, and a pointer to a job is its ID.
--   A loop over a map, whose order Go leaves open, goes in the order in which the source lists the clients.
--
-- Fuel: seven loops take fuel. For the one in `Stop` that polls the process, theorems say which fuel is
-- enough and when none is. For the two of `StreamOutput`, what is said of the bytes sent holds for any
-- fuel; one round is enough for the output of an ended job, and the loop for a running job has none that
-- is enough where it spins or waits. The loop of the watcher over the events of one read needs more fuel
-- than there are events in a batch, and for any content more than the bytes that are left, where no name
-- claims 2^31 bytes or more; its rounds are as many as the reads, and one is enough where the file is
-- closed. The loop of the client over a stream needs more fuel than messages. The wait for the
-- log file is bounded by its own counter; its fuel is the number of rounds, and is not used up.
--
-- Not modelled: logging, where the text of a message is left out; the formatted values inside error
-- messages; the text of the usage; the generated gRPC code and the transport, so that requests and replies
-- arrive as they are sent; the parsing of the server's flags, by a library; the certificates and their
-- scripts. Elsewhere than in Jobslib/History and Server/Stream/Race, one goroutine runs, and the replies of
-- the world stand for what the others do.
mod Base
mod Result
mod FilePath
mod Os
pub mod Authz
pub mod Authn
pub mod Jobslib
pub mod Server
pub mod Client
mod Tests
