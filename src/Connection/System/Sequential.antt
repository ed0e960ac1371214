-- ===== src/Connection/System/Sequential.antt =====
-- ingest/src/connection/mod.rs, `Connection::init`: what a connection is for, as one program with no
-- tasks and no channels. It reads a command, reacts to it, and writes the answer.
pub mod Rounds
pub mod Turns
pub mod Growth
pub mod Refines
use itgv.Base.{ℕ, zero, suc, Bool, true, false, none, some}
use itgv.Connection.Frame.{handle_frame_command}
use itgv.Connection.Handler.{FrameCommand}
use itgv.Connection.Remote.{Env, call}
use itgv.Connection.Services.{Services}
use itgv.Connection.Socket.{Next, command, failed, finished, panicked, Framed}
use itgv.Connection.State.{ConnectionState}
use itgv.Connection.Tasks.{
  Then, continue, connected, give_up, ConnTask, receiving, answering, conn_done, clean_up,
  on_command, after_answer,
}

module _ (services : Services) (framed : Framed services.World) where
  -- Between two commands. In `hanging` the client waits for an answer that does not come; in `cut` a
  -- write has failed; in `leaving` the client was refused, and its next command will be ignored.
  pub data Stage : Type 0 where
    serving : Env services → framed.Frame → ConnectionState → Stage
    hanging : Env services → framed.Frame → ConnectionState → Stage
    cut : Env services → framed.Frame → ConnectionState → Stage
    leaving : Env services → framed.Frame → Stage
    over : Env services → framed.Frame → Stage

  abbrev pub closing : Env services → framed.Frame → ConnectionState → Stage
  closing env frame st = over (clean_up services st env).0 frame

  -- on whether all pieces of the answer were written
  abbrev pub written : Env services → framed.Frame → ConnectionState → Then → Bool → Stage
  written env frame st continue true = serving env frame st
  written env frame st connected true = serving env frame st
  written env frame st give_up true = leaving env frame
  written env frame st continue false = cut env frame st
  written env frame st connected false = cut env frame st
  written env frame st give_up false = over env frame

  abbrev pub write : Env services → framed.Frame → ConnectionState → FrameCommand → Then → Stage
  write env frame st r then_do =
      let (env', w) = handle_frame_command services framed (some r) frame env in
      written env' w.frame st then_do w.done

  -- on what the command came to
  abbrev pub finish : Env services → framed.Frame → ConnTask → Stage
  finish env frame (receiving st) = hanging env frame st
  finish env frame (answering st r then_do) =
      write (after_answer services then_do true st env).0 frame st r then_do
  finish env frame conn_done = over env frame

  -- on what the client sent
  abbrev pub handle : Env services → framed.Frame → ConnectionState → Next → Stage
  handle env frame st (command c) =
      let (env', task) = on_command services (some c) st env in finish env' frame task
  handle env frame st (failed _) = closing env frame st
  handle env frame st finished = closing env frame st
  handle env frame st panicked = closing env frame st

  unfoldable pub exchange : Stage → Stage
  unfolding clean_up on_command after_answer handle_frame_command
  exchange (serving env frame st) =
      let (env', r) = call services (framed.next frame) env in handle env' r.frame st r.item
  exchange (hanging env frame st) = hanging env frame st
  exchange (cut env frame st) = closing env frame st
  exchange (leaving env frame) =
      let (env', r) = call services (framed.next frame) env in over env' r.frame
  exchange (over env frame) = over env frame

  unfoldable pub exchanges : ℕ → Stage → Stage
  unfolding exchange
  exchanges zero x = x
  exchanges (suc n) x = exchange (exchanges n x)
