-- ===== src/Lib.antt =====
-- A model of the media server: clients connect, are greeted, say what they will send, and
-- stream it into a file of their own.
--
-- Common holds the shared tests, lists, text and digits, and Common.Exec the form of the C++
-- code: code with a state that returns, throws, or is aborted by a failed `assert` or by a
-- read outside its buffer. Common.Exec.Triple and Common.Exec.Kept have the rules by which its
-- handlers are proved. Common.Int has the signed integers, and Common.Bits the exclusive or.
--
-- Media.Prop is include/media/media_prop.h and media_config.h; Media.Save is
-- src/media/save.cpp, with the disk as a list of paths and bytes. `Answers` there says what
-- the operating system and asio answer to the calls of one handler, one field for each call
-- that can fail; every theorem is for every answer that its statement does not restrict.
--
-- Net.Props is include/net/net_prop.h. Net.Greeting is src/net/communication.cpp:
-- `parse_client_greeting` is `ParseClientGreeting`, with the offset as its state and the order
-- in which the operands of `|` are evaluated as an argument. Net.Greeting.Accepts says which
-- greetings are accepted and how a client writes one (`MakeClientGreeting` of
-- test/net/communicationTests.cpp).
--
-- Net.Connection is src/net/connection.cpp and include/net/connection.h: the state of a
-- connection, the out file, the socket, and the asynchronous operations. An operation that
-- asio has pending is counted in the connection by the handler that waits for it.
-- Net.Acceptor, Net.Listener and Net.Gc are the files of src/net/service. Net.Events has what
-- asio may deliver to a connection (`Event`, where its operation is pending) and the handler
-- that answers (`handle`). Net.Data is the state that the services share
-- (include/net/net_data.h), and Net.Services runs the handlers one at a time, in any order, as
-- `io_context` does on its single thread (`Step`, `Reach`).
--
-- Core has include/core and src/core: the string functions (Core.Utility), the executing
-- directory (Core.Filesystem), the logger as the texts that it writes (Core.Logger) and the
-- stream and the console that they go to (Core.Logger.Stream), and the report of a crash
-- behind them (Core.CrashHandler). Core.Convert is `LossyCast` and `SafeCast` for integer
-- types of any width (convert.h), Core.Hashers the hash of a tuple in 64 bits (hashers.h).
-- Core.GuardedData is guarded_data.h: accesses that lock, read, write and unlock in any order
-- (`Step`, `Run`); Core.ExecutionTimer (execution_timer.cpp) has the timers, which assign to
-- one map, each behind a mutex of its own.
--
-- Server is src/hyperion.cpp: what `main` makes of the command line, its log file and its exit
-- code (Server.Main), the loop of the terminal, the start of the services, the loop of
-- `MakeConnectionAcceptor`, and the destruction of the connections when the server stops.
-- Server.Threads is `RunServer` with its two threads (`Program`): each turn is one of `main`,
-- which reads a line, leaves its loop, stops `io_context`, waits at `join` or destroys the
-- connections, or one of the services, which make the acceptor, start, or run one handler; the
-- list of turns is any interleaving, and `Crash` says in which way the process was aborted.
--
-- The modules below these hold the proofs: Net.Events.Safety has the assertions and the
-- references, Net.Events.Vetted the status, Net.Events.Sealed the files that a connection
-- writes, Net.Services.Each what holds of every connection in every reachable state,
-- Net.Services.Exact the reference counts where nothing is lost (`CalmReach`),
-- Net.Services.Returning that handlers return (`IsQuiet`),
-- Net.Events.Streaming and Net.Events.Session a client from its greeting to its last byte, and
-- Net.Services.Clients one client among the others (`HasClient`, `ClientRun`).
-- Each is named for what it proves; the modules Tests run the theorems on a small server, and
-- Core.UnitTests and Net.UnitTests run the unit tests of test/ on the model.
--
-- A connection is valid (`IsValid` of Net.Events.Valid) when the reference count covers its
-- pending operations and its buffer, its file and its status fit the phase it is in. Loops are
-- structural where the code's are. Others have fuel: to_string has the number itself, more
-- than it has digits; the loops of `StrTrim` and `StrMatchLen` have the length that bounds
-- their rounds, and their theorems hold of the result with no condition; the loops of the
-- terminal and of the acceptor may run for ever, so that they return nothing when their fuel
-- is spent, and the theorems on them say which fuel is enough.
--
-- Not modelled: the log lines of the handlers (output only), data races (a turn is atomic), a
-- write to an open file that the disk refuses, which the source does not look at, the
-- assertion on `netData_`, which is the address of a reference, thread identifiers, the text
-- of the remote address, wrap-around of the 64-bit identifiers and counters, floating point,
-- and the libraries asio, TCLAP, backward-cpp, StackWalker and googletest, which the sources
-- only call. What these answer, the readings of the clock, the numbers of the signals and the
-- text of a stack trace are parameters.
pub mod Common
pub mod Core
pub mod Media
pub mod Net
pub mod Server
