-- ===== src/Connection/System/Sequential/Rounds.antt =====
-- ingest/src/connection/mod.rs, `Connection::init`: one round of the two tasks, against one exchange.
use itgv.Base.{ℕ, zero, suc, ◌≡◌, refl, ap, ◌∙◌, Bool, true, false, some, List, [], ◌∷◌, ◌++◌}
use itgv.Connection.Frame.{handle_frame_command}
use itgv.Connection.Frame.Order.{handle_frame_command-none}
use itgv.Connection.Handler.{FrameCommand}
use itgv.Connection.Mpsc.{queues}
use itgv.Connection.Remote.{Env, call}
use itgv.Connection.Services.{Services}
use itgv.Connection.Socket.{Next, command, failed, finished, panicked, Framed}
use itgv.Connection.State.{ConnectionState}
use itgv.Connection.System.Lockstep.{chan, at_}
use itgv.Connection.System.Refinement.{Queued, run-append}
use itgv.Connection.System.Sequential.{
  Stage, serving, hanging, cut, leaving, over, written, finish, handle, exchange, exchanges,
}
use itgv.Connection.System.{
  Task, frame_task, conn_task, run, step_frame, step_conn, on_next, on_written, goes_to,
}
use itgv.Connection.Tasks.{
  reading, instructed, frame_done, Then, continue, connected, give_up, ConnTask, receiving,
  answering, conn_done, on_command, after_answer,
}
use itgv.FtlCodec.{FtlCommand}

-- A command is read, handed over, taken and answered, and the answer is written.
abbrev pub round : List Task
round = frame_task ∷ frame_task ∷ conn_task ∷ conn_task ∷ frame_task ∷ []

abbrev pub rounds : ℕ → List Task
rounds zero = []
rounds (suc n) = rounds n ++ round

module _ (services : Services) (framed : Framed services.World) where
  abbrev Plain : Type 0
  Plain = Queued services framed

  abbrev pub runs : List Task → Plain → Plain
  runs ts s = run services framed (queues FtlCommand) (queues FrameCommand) ts s

  -- The state of the two tasks between two commands.
  abbrev pub state_of : Stage services framed → Plain
  state_of (serving env frame st) =
      at_ services framed env frame reading (receiving st) (chan [] true true) (chan [] true true)
  state_of (hanging env frame st) =
      at_ services framed env frame instructed (receiving st) (chan [] true true)
        (chan [] true true)
  state_of (cut env frame st) =
      at_ services framed env frame frame_done (receiving st) (chan [] false true)
        (chan [] true false)
  state_of (leaving env frame) =
      at_ services framed env frame reading conn_done (chan [] true false) (chan [] false true)
  state_of (over env frame) =
      at_ services framed env frame frame_done conn_done (chan [] false false) (chan [] false false)

  written-state_of :
      (env : Env services) (frame : framed.Frame) (st : ConnectionState) (then_do : Then) (b : Bool)
      → on_written services framed
          (queues FtlCommand)
          (queues FrameCommand)
          (goes_to services framed
            (queues FtlCommand)
            (queues FrameCommand)
            (at_ services framed env frame instructed
              (receiving st)
              (chan [] true true)
              (chan [] true true))
            (after_answer services then_do true st env).1)
          b
        ≡ state_of (written services framed env frame st then_do b)
  unfolding after_answer
  written-state_of env frame st continue true = refl
  written-state_of env frame st continue false = refl
  written-state_of env frame st connected true = refl
  written-state_of env frame st connected false = refl
  written-state_of env frame st give_up true = refl
  written-state_of env frame st give_up false = refl

  abbrev taken : Env services → framed.Frame → ConnectionState → ConnTask → Plain
  taken env frame st task =
      goes_to services framed (queues FtlCommand) (queues FrameCommand)
        (at_ services framed env frame instructed (receiving st) (chan [] true true)
          (chan [] true true))
        task

  -- From what the command came to.
  finish-state_of :
      (env : Env services) (frame : framed.Frame) (st : ConnectionState) (task : ConnTask)
      → runs (conn_task ∷ frame_task ∷ []) (taken env frame st task)
        ≡ state_of (finish services framed env frame task)
  unfolding run step_conn step_frame after_answer
  finish-state_of env frame st (receiving st') = refl
  finish-state_of env frame st conn_done = rw (handle_frame_command-none services framed)
  finish-state_of env frame st (answering st' r continue) =
      let (env', w) =
        handle_frame_command services framed (some r) frame
          (after_answer services continue true st' env).0 in
      written-state_of env' w.frame st' continue w.done
  finish-state_of env frame st (answering st' r connected) =
      let (env', w) =
        handle_frame_command services framed (some r) frame
          (after_answer services connected true st' env).0 in
      written-state_of env' w.frame st' connected w.done
  finish-state_of env frame st (answering st' r give_up) =
      let (env', w) =
        handle_frame_command services framed (some r) frame
          (after_answer services give_up true st' env).0 in
      written-state_of env' w.frame st' give_up w.done

  -- From what the client sent.
  handle-state_of :
      (env : Env services) (frame : framed.Frame) (st : ConnectionState) (n : Next)
      → runs (frame_task ∷ conn_task ∷ conn_task ∷ frame_task ∷ []) (
          on_next services framed
            (queues FtlCommand)
            (queues FrameCommand)
            (at_ services framed env frame reading
              (receiving st)
              (chan [] true true)
              (chan [] true true))
            n)
        ≡ state_of (handle services framed env frame st n)
  unfolding run step_conn step_frame on_command
  handle-state_of env frame st (command c) =
      finish-state_of (on_command services (some c) st env).0 frame st
        (on_command services (some c) st env).1
  handle-state_of env frame st (failed e) = refl
  handle-state_of env frame st finished = refl
  handle-state_of env frame st panicked = refl

  -- One round of the two tasks is one exchange.
  pub round-state_of :
      (x : Stage services framed) → runs round (state_of x) ≡ state_of (exchange services framed x)
  unfolding run step_conn step_frame exchange
  round-state_of (serving env frame st) =
      let (env', r) = call services (framed.next frame) env in
      handle-state_of env' r.frame st r.item
  round-state_of (hanging env frame st) = refl
  round-state_of (cut env frame st) = refl
  round-state_of (leaving env frame) =
      let (env', r) = call services (framed.next frame) env in left env' r.frame r.item
    where
      left :
          (env : Env services) (frame : framed.Frame) (n : Next)
          → runs (frame_task ∷ conn_task ∷ conn_task ∷ frame_task ∷ []) (
              on_next services framed
                (queues FtlCommand)
                (queues FrameCommand)
                (at_ services framed env frame reading conn_done
                  (chan [] true false)
                  (chan [] false true))
                n)
            ≡ state_of (over env frame)
      left env frame (command c) = refl
      left env frame (failed e) = refl
      left env frame finished = refl
      left env frame panicked = refl
  round-state_of (over env frame) = refl

  pub rounds-state_of :
      (n : ℕ) (x : Stage services framed)
      → runs (rounds n) (state_of x) ≡ state_of (exchanges services framed n x)
  unfolding exchanges run
  rounds-state_of zero x = refl
  rounds-state_of (suc n) x =
      run-append services framed (queues FtlCommand) (queues FrameCommand) (rounds n) round
        (state_of x)
      ∙ ap (runs round) (rounds-state_of n x)
      ∙ round-state_of (exchanges services framed n x)
