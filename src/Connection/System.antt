-- ===== src/Connection/System.antt =====
-- ingest/src/connection/mod.rs: the two tasks of `Connection::init` side by side. A schedule says
-- which task runs next; one that has no step is passed over.
pub mod Refinement
pub mod Lockstep
pub mod Progress
pub mod Turns
pub mod Safety
pub mod Hang
pub mod Answering
pub mod Account
pub mod Requests
pub mod Ports
pub mod Streams
pub mod Closing
pub mod Sequential
use itgv.Base.{ℕ, Bool, true, false, Option, none, some, List, [], ◌∷◌}
use itgv.Connection.Frame.{Written, handle_frame_command}
use itgv.Connection.Handler.{FrameCommand}
use itgv.Connection.Mpsc.{Sent, sent, full, closed, Received, got, waiting, ended, Mpsc}
use itgv.Connection.Remote.{Env, call}
use itgv.Connection.Services.{Services}
use itgv.Connection.Socket.{Next, command, failed, finished, panicked, Framed}
use itgv.Connection.State.{ConnectionState, new}
use itgv.Connection.Tasks.{
  FrameTask, reading, handing, instructed, frame_done, Then, ConnTask, receiving, answering,
  conn_done, on_command, after_answer,
}
use itgv.FtlCodec.{FtlCommand}

pub data Task : Type 0 where
  frame_task : Task
  conn_task : Task

-- `mpsc::channel::<…>(2)`, both ways
abbrev pub channel_size : ℕ
channel_size = 2

module _ (services : Services) (framed : Framed services.World) (commands : Mpsc FtlCommand)
    (replies : Mpsc FrameCommand) where
  pub record System : Type 0 where
    pub env : Env services
    pub frame : framed.Frame
    pub frames : FrameTask
    pub conn : ConnTask
    pub to_conn : commands.Chan
    pub to_frame : replies.Chan

  -- Both tasks as `init` spawns them.
  unfoldable pub init : Env services → framed.Frame → System
  init env frame = record {
    env = env;
    frame = frame;
    frames = reading;
    conn = receiving new;
    to_conn = commands.channel channel_size;
    to_frame = replies.channel channel_size;
  }

  -- The frame task returns or unwinds, and its ends of the channels go with it.
  abbrev pub stop_frame : System → System
  stop_frame s = record s {
    frames = frame_done;
    to_conn = commands.drop_sender s.to_conn;
    to_frame = replies.drop_receiver s.to_frame;
  }

  abbrev pub on_next : System → Next → System
  on_next s (command c) = record s { frames = handing c }
  on_next s (failed _) = stop_frame s
  on_next s finished = stop_frame s
  on_next s panicked = stop_frame s

  -- `frame.next().await`
  abbrev pub read : System → System
  read s =
      let (env', r) = call services (framed.next s.frame) s.env in
      on_next (record s { env = env'; frame = r.frame }) r.item

  -- `frame_send.send(command).await`
  abbrev pub on_handed : System → Sent commands.Chan → Option System
  on_handed s (sent ch) = some (record s { frames = instructed; to_conn = ch })
  on_handed s full = none
  on_handed s closed = some (stop_frame s)

  abbrev pub on_written : System → Bool → System
  on_written s true = record s { frames = reading }
  on_written s false = stop_frame s

  abbrev pub instruct : System → Option FrameCommand → System
  instruct s instructions =
      let (env', w) = handle_frame_command services framed instructions s.frame s.env in
      on_written (record s { env = env'; frame = w.frame }) w.done

  -- `frame_receive.recv().await` and `handle_frame_command`
  abbrev pub on_instructions : System → Received FrameCommand replies.Chan → Option System
  on_instructions s (got r ch) = some (instruct (record s { to_frame = ch }) (some r))
  on_instructions s waiting = none
  on_instructions s ended = some (instruct s none)

  abbrev pub frame_from : System → FrameTask → Option System
  frame_from s reading = some (read s)
  frame_from s (handing c) = on_handed s (commands.send s.to_conn c)
  frame_from s instructed = on_instructions s (replies.recv s.to_frame)
  frame_from s frame_done = none

  unfoldable pub step_frame : System → Option System
  step_frame s = frame_from s s.frames

  -- The command task goes on, or returns and drops its ends of the channels.
  abbrev pub goes_to : System → ConnTask → System
  goes_to s (receiving st) = record s { conn = receiving st }
  goes_to s (answering st r then_do) = record s { conn = answering st r then_do }
  goes_to s conn_done = record s {
    conn = conn_done;
    to_conn = commands.drop_receiver s.to_conn;
    to_frame = replies.drop_sender s.to_frame;
  }

  abbrev pub takes : System → Option FtlCommand → ConnectionState → System
  takes s c st =
      let (env', task) = on_command services c st s.env in goes_to (record s { env = env' }) task

  -- `conn_receive.recv().await` and the `match` on it
  abbrev pub on_received :
      System → ConnectionState → Received FtlCommand commands.Chan → Option System
  on_received s st (got c ch) = some (takes (record s { to_conn = ch }) (some c) st)
  on_received s st waiting = none
  on_received s st ended = some (takes s none st)

  abbrev pub answers : System → Then → Bool → ConnectionState → System
  answers s then_do done st =
      let (env', task) = after_answer services then_do done st s.env in
      goes_to (record s { env = env' }) task

  -- `conn_send.send(…).await`
  abbrev pub on_answered : System → ConnectionState → Then → Sent replies.Chan → Option System
  on_answered s st then_do (sent ch) = some (answers (record s { to_frame = ch }) then_do true st)
  on_answered s st then_do full = none
  on_answered s st then_do closed = some (answers s then_do false st)

  abbrev pub conn_from : System → ConnTask → Option System
  conn_from s (receiving st) = on_received s st (commands.recv s.to_conn)
  conn_from s (answering st r then_do) = on_answered s st then_do (replies.send s.to_frame r)
  conn_from s conn_done = none

  unfoldable pub step_conn : System → Option System
  step_conn s = conn_from s s.conn

  abbrev pub step : Task → System → Option System
  step frame_task s = step_frame s
  step conn_task s = step_conn s

  abbrev pub or_stay : System → Option System → System
  or_stay s none = s
  or_stay s (some t) = t

  unfoldable pub run : List Task → System → System
  unfolding step_frame step_conn
  run [] s = s
  run (t ∷ ts) s = run ts (or_stay s (step t s))
