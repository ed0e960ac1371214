-- ===== src/Lib.antt =====
-- The ingest server of ITG, ingest/src: a client speaks FTL over TCP, the server answers its
-- handshake and gets it a UDP port from the WebRTC server.
--
-- The parts and how they interact. `main` (ingest/src/main.rs) listens and starts one connection for
-- each client. A connection (`Connection::init`, ingest/src/connection/mod.rs) is two tasks with a
-- bounded channel each way. The frame task reads commands from the socket through the codec
-- (ingest/src/ftl_codec.rs), hands each one over, waits for the answer and writes it. The command task
-- keeps the negotiated state (ingest/src/connection/state.rs), reacts to each command, announces and
-- ends streams at an authentication service, and asks the WebRTC server for ports.
--
-- The files.
--   Base, Base/*           names of the libraries passed on; Boolean tests on numbers; lists.
--   Std, Std/*             what the sources use of Rust's standard library: `str` and `String` as lists
--                          of code points (Std/Text), UTF-8 with lossy decoding (Std/Utf8), `HashMap`,
--                          `windows` and `position` (Std/Slice), decimal `Display` (Std/Decimal),
--                          `Result`, calls that can also panic (Std/Outcome), and code with effects as
--                          functions of the state of everything outside (Std/Io).
--   FtlCodec               ingest/src/ftl_codec.rs: `decode` as a function from the codec and the
--                          buffer to both of them afterwards and a result, with `decode_command` for
--                          the chain of tests; `encode`, `reset`, `FtlError`.
--   FtlCodec/Framing       the search for the delimiter.
--   FtlCodec/Stream        the items of a whole input, however it is cut.
--   FtlCodec/Commands, FtlCodec/Verdicts
--                          which line gives which command, error or panic.
--   FtlCodec/Wire          lines as a client writes them.
--   Connection/State       ingest/src/connection/state.rs.
--   Connection/Services    a record of the calls to third-party packages, and what they document.
--   Connection/Remote      `notify_stream_start`, `notify_stream_end`, `allocate_port`, `free_port`
--                          and `generate_hmac`, over those calls. An `Env` is the world and the list of
--                          events so far, the latest first.
--   Connection/Handler     `handle_command`. In each branch the answer is sent last, so it is handed
--                          back and the task sends it.
--   Connection/Mpsc        tokio's `mpsc` channel as an interface: operations, a view as a queue, and
--                          laws.
--   Connection/Socket      tokio-util's `Framed` as an interface.
--   Connection/Frame       `handle_frame_command`.
--   Connection/Tasks       the two tasks of `Connection::init`: where each can wait, and what the
--                          command task does between two waits.
--   Connection/Ports       ports and streams in lists of events, for each piece of the command task.
--   Connection/System      the two tasks side by side, run by a schedule: a list that says which task
--                          goes next. A task that waits on a channel which is not ready is passed over.
--                          Connection/System/Refinement takes the channels to queues,
--                          Connection/System/Lockstep says in which phases a connection can be,
--                          Connection/System/Account says what a predicate must satisfy to hold over a
--                          whole connection, which Connection/System/Ports and Connection/System/Streams
--                          fill, and the others say what follows for connections after any schedule.
--                          Connection/System/Sequential is what a connection is for, as one program
--                          with no tasks and no channels. Connection/Remote/Growth and
--                          Connection/Tasks/Growth say of each piece that it only adds events,
--                          Connection/Remote/Log, Connection/Tasks/Log and Connection/System/Requests
--                          which requests stand behind the calls.
--   Connection/Handshake   a client that sends its lines and reads the answers: `decode` on the bytes
--                          that it sends, the two tasks, and `encode` on what they write.
--   Server                 ingest/src/main.rs: the address, the loggers, the accept loop; Server/Main is
--                          `main` as a whole.
--   Server/Connections     the accept loop with the two tasks of every connection that it spawned. They
--                          share the world and the list of events; a history says which socket arrives
--                          and which task of which connection goes next. Server/Connections/Ports
--                          and Server/Connections/Exclusive speak of ports, Server/Connections/Loop of
--                          the sockets and their connections.
--   Tests                  runs, concrete services and channels, and instances of the theorems.
--
-- Bounds and fuel. `write_popped` takes a number of rounds, and `handle_frame_command` gives it one
-- for each piece, as each round pops one. `digits` takes one round more than the number it writes, as
-- a number has at most one digit more than it has units. `drain`, which reads all items of a buffer,
-- takes one round for each byte, as each item takes at least four. A port has sixteen bits, and the
-- cast from the 64 bits of the JSON number is written out. A handshake takes three exchanges and one
-- more for each attribute, and an exchange is five turns of the tasks. Code points and bytes are
-- natural numbers.
--
-- Not modelled. Lines for the log are left out, but for those of `print`; so is what the error
-- values of `handle_frame_command` say, since the caller only logs it. The tokio runtime appears as
-- the schedule. A task's own waits for the network are part of a step: calls of different
-- connections are not interleaved, and a call that never comes back, as the read of an announcement
-- may, appears as a task that gets no further turn. clap, simplelog, the socket, the HTTP and
-- WebSocket clients, JSON, the random numbers and hex are parameters. The Go program under webrtc
-- and the frontend are other programs, and their answers are arbitrary here.
pub mod Base
pub mod Std
pub mod FtlCodec
pub mod Connection
pub mod Server
pub mod Tests
