-- ===== src/Server/Connections.antt =====
-- ingest/src/main.rs and ingest/src/connection/mod.rs: the accept loop, with the two tasks of every
-- connection that it spawned. All of them share the world outside; a history says what happens in
-- which order.
pub mod Ports
pub mod Exclusive
pub mod Loop
use itgv.Base.{ℕ, zero, suc, Option, none, some, List, [], ◌∷◌, ◌++◌}
use itgv.Connection.Handler.{FrameCommand}
use itgv.Connection.Mpsc.{Mpsc}
use itgv.Connection.Remote.{Env}
use itgv.Connection.Services.{Services}
use itgv.Connection.Socket.{Framed}
use itgv.Connection.System.{System, Task, init, step, step_frame, step_conn, or_stay}
use itgv.Connection.Tasks.{FrameTask, ConnTask}
use itgv.FtlCodec.{FtlCommand}
use itgv.Std.Result.{Result, ok, err}

-- The listener gives a socket or an error, or a task of the connection with this number has its
-- turn.
pub data Happening (Error Socket : Type 0) : Type 0 where
  accepted : Result Error Socket → Happening Error Socket
  polled : ℕ → Task → Happening Error Socket

module _ (services : Services) (framed : Framed services.World) (commands : Mpsc FtlCommand)
    (replies : Mpsc FrameCommand) where
  -- What the two tasks of one connection keep.
  pub record Local : Type 0 where
    pub frame : framed.Frame
    pub frames : FrameTask
    pub conn : ConnTask
    pub to_conn : commands.Chan
    pub to_frame : replies.Chan

  abbrev pub local : System services framed commands replies → Local
  local s = record {
    frame = s.frame;
    frames = s.frames;
    conn = s.conn;
    to_conn = s.to_conn;
    to_frame = s.to_frame;
  }

  abbrev pub in_env : Env services → Local → System services framed commands replies
  in_env env l = record {
    env = env;
    frame = l.frame;
    frames = l.frames;
    conn = l.conn;
    to_conn = l.to_conn;
    to_frame = l.to_frame;
  }

  -- The connections in the order of arrival, and the error that ended `main`, if one did.
  pub record Server : Type 0 where
    pub env : Env services
    pub connections : List Local
    pub ended_by : Option services.Error

  abbrev pub next_state : Task → Env services → Local → System services framed commands replies
  next_state t env l =
      or_stay services framed commands replies (in_env env l)
        (step services framed commands replies t (in_env env l))

  -- One turn of a task of one connection. A number that no connection has changes nothing.
  unfoldable pub step_at : ℕ → Task → Env services → List Local → Env services × List Local
  unfolding step_frame step_conn
  step_at i t env [] = (env, [])
  step_at zero t env (l ∷ ls) = let s = next_state t env l in (s.env, local s ∷ ls)
  step_at (suc i) t env (l ∷ ls) = let (env', ls') = step_at i t env ls in (env', l ∷ ls')

  -- `Connection::init(socket)`
  unfoldable pub spawned : Env services → framed.Frame → Local
  unfolding init
  spawned env frame = local (init services framed commands replies env frame)

  abbrev moved : Server → Env services × List Local → Server
  moved s (env, connections) = record s { env = env; connections = connections }

  abbrev pub react : Server → Happening services.Error framed.Frame → Server
  react s (accepted (ok frame)) = record s {
    connections = s.connections ++ spawned s.env frame ∷ [];
  }
  react s (accepted (err e)) = record s { ended_by = some e }
  react s (polled i t) = moved s (step_at i t s.env s.connections)

  -- When `main` returns, the runtime drops all tasks.
  abbrev pub while_open :
      Option services.Error → Server → Happening services.Error framed.Frame → Server
  while_open none s h = react s h
  while_open (some _) s h = s

  unfoldable pub serve : List (Happening services.Error framed.Frame) → Server → Server
  unfolding step_at spawned
  serve [] s = s
  serve (h ∷ hs) s = serve hs (while_open s.ended_by s h)

  abbrev pub start : Env services → Server
  start env = record { env = env; connections = []; ended_by = none }
