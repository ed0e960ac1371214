-- ===== src/Connection/Tasks.antt =====
-- ingest/src/connection/mod.rs: `Connection::init`, the two tasks of a connection and the two
-- channels between them. A step of a task runs from one wait on a channel or on the socket to the
-- next; a task that waits on a channel which is not ready has no step.
pub mod CleanUp
pub mod Farewell
pub mod PortMoves
pub mod Growth
pub mod Log
pub mod Ledger
pub mod Dot
pub mod Streams
use itgv.Base.{ℕ, Bool, true, false, Option, none, some, List, [], ◌∷◌, ◌++◌}
use itgv.Connection.Frame.{Written, handle_frame_command}
use itgv.Connection.Handler.{FrameCommand, send, Handled, handle_command}
use itgv.Connection.Mpsc.{Sent, sent, full, closed, Received, got, waiting, ended, Mpsc}
use itgv.Connection.Remote.{
  Env, Action, Event, emit, call, printed, notify_stream_end, allocate_port, free_port,
}
use itgv.Connection.Services.{Services}
use itgv.Connection.Socket.{Next, command, failed, finished, panicked, Framed}
use itgv.Connection.State.{ConnectionState, new, print}
use itgv.FtlCodec.{FtlCommand, hmac, connect, ping, dot, attribute, disconnect}
use itgv.Std.Decimal.{display}
use itgv.Std.Io.{Io, pure, ◌>>=◌, ◌>>◌}
use itgv.Std.Text.{Text, lit}

-- Where the frame task waits: for the client, to hand a command over, or for instructions.
pub data FrameTask : Type 0 where
  reading : FrameTask
  handing : FtlCommand → FrameTask
  instructed : FrameTask
  frame_done : FrameTask

-- What the command task does once its answer is sent, or cannot be sent: `handle_command` goes on
-- either way, the answer to a dot prints the state or returns, and the refusal returns.
pub data Then : Type 0 where
  continue : Then
  connected : Then
  give_up : Then

-- Where the command task waits: for a command, or to send an answer.
pub data ConnTask : Type 0 where
  receiving : ConnectionState → ConnTask
  answering : ConnectionState → FrameCommand → Then → ConnTask
  conn_done : ConnTask

abbrev pub port_line : Text → Text
port_line port = lit "200 hi. Use UDP port " ++ (port ++ lit "\n")

abbrev pub refusal : FrameCommand
refusal = send (lit "500 failed to allocate port\n" ∷ [])

module _ (services : Services) where
  abbrev pub notify_end : Option Text → Action services (Unit {0})
  notify_end none = pure tt
  notify_end (some key) = do notify_stream_end services key; pure tt

  abbrev pub free_held : Option ℕ → Action services (Unit {0})
  free_held none = pure tt
  free_held (some port) = free_port services port

  -- What both ends of the loop do: tell the end of the stream, and give the port back.
  unfoldable pub clean_up : ConnectionState → Action services ConnTask
  clean_up state = do notify_end state.stream_key; free_held state.rtp_port; pure conn_done

  abbrev pub answer_dot : ConnectionState → Option ℕ → ConnTask
  answer_dot state none = answering state refusal give_up
  answer_dot state (some port) = answering state (send (port_line (display port) ∷ [])) connected

  abbrev pub with_port : ConnectionState → Option ℕ → ConnectionState
  with_port state port = record state { rtp_port = port }

  unfoldable pub on_dot : ConnectionState → Option ℕ → Action services ConnTask
  on_dot state (some port) = pure (answer_dot state (some port))
  on_dot state none = do
    port ← allocate_port services
    pure (answer_dot (with_port state port) port)

  abbrev pub to_answer : ConnectionState → Option FrameCommand → ConnTask
  to_answer state none = receiving state
  to_answer state (some answer) = answering state answer continue

  unfoldable pub on_other : FtlCommand → ConnectionState → Action services ConnTask
  on_other c state = do
    handled ← handle_command services c state
    pure (to_answer handled.state handled.answer)

  -- The `match` on what the command task received.
  unfoldable pub on_command : Option FtlCommand → ConnectionState → Action services ConnTask
  unfolding clean_up on_dot on_other
  on_command (some disconnect) state = clean_up state
  on_command (some dot) state = on_dot state state.rtp_port
  on_command (some hmac) state = on_other hmac state
  on_command (some (connect entries)) state = on_other (connect entries) state
  on_command (some ping) state = on_other ping state
  on_command (some (attribute entries)) state = on_other (attribute entries) state
  on_command none state = clean_up state

  -- After the answer: `true` if it was sent.
  unfoldable pub after_answer : Then → Bool → ConnectionState → Action services ConnTask
  after_answer continue _ state = pure (receiving state)
  after_answer connected true state = do
    emit services (printed (print state))
    pure (receiving state)
  after_answer connected false state = pure conn_done
  after_answer give_up _ state = pure conn_done
