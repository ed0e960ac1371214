-- ===== src/Connection/System/Answering.antt =====
-- ingest/src/connection/mod.rs, `Connection::init`: how long a command stays without an answer.
use itgv.Base.{arith, ◌≡◌, ◌⊎◌, refl, sym, ap, subst, true, some, List, [], ◌∷◌}
use itgv.Connection.Handler.{FrameCommand}
use itgv.Connection.Mpsc.{Mpsc, queues}
use itgv.Connection.Remote.{Env}
use itgv.Connection.Services.{Services}
use itgv.Connection.Socket.{Framed}
use itgv.Connection.State.{ConnectionState}
use itgv.Connection.System.Lockstep.{
  chan, at_, Phase, asking, giving, given, replying, replied, unanswered, last_reply, deserted,
  abandoned, over,
}
use itgv.Connection.System.Progress.{IsRefused, on_command-IsRefused}
use itgv.Connection.System.Refinement.{Queued, view-run}
use itgv.Connection.System.Safety.{reached, reached-Phase}
use itgv.Connection.System.{Task, frame_task, conn_task, step_frame, step_conn, run}
use itgv.Connection.Tasks.{
  FrameTask, reading, instructed, frame_done, Then, continue, connected, give_up, ConnTask,
  receiving, answering, conn_done, on_command, after_answer,
}
use itgv.FtlCodec.Commands.{IsComplete}
use itgv.FtlCodec.{FtlCommand}

-- The command is taken, its answer is sent, and the answer is written.
abbrev pub turn : List Task
turn = conn_task ∷ conn_task ∷ frame_task ∷ []

-- The frame task is back at the client, or has returned.
abbrev pub IsServed : FrameTask → Type 0
IsServed frames = (frames ≡ reading) ⊎ (frames ≡ frame_done)

module _ (services : Services) (framed : Framed services.World) where
  abbrev Plain : Type 0
  Plain = Queued services framed

  abbrev turned : Plain → Plain
  turned s = run services framed (queues FtlCommand) (queues FrameCommand) turn s

  abbrev taking : Env services → framed.Frame → ConnectionState → FtlCommand → Plain
  taking env frame st c =
      at_ services framed env frame instructed (receiving st) (chan (c ∷ []) true true)
        (chan [] true true)

  answered-IsServed :
      (env : Env services) (frame : framed.Frame) (st : ConnectionState) (c : FtlCommand)
      (now : Env services) (st' : ConnectionState) (r : FrameCommand) (then_do : Then)
      → on_command services (some c) st env ≡ (now, answering st' r then_do)
      → IsServed (turned (taking env frame st c)).frames
  unfolding run step_conn step_frame after_answer
  answered-IsServed env frame st c now st' r continue e = rw e (ground arith)
  answered-IsServed env frame st c now st' r connected e = rw e (ground arith)
  answered-IsServed env frame st c now st' r give_up e = rw e (ground arith)

  returned-IsServed :
      (env : Env services) (frame : framed.Frame) (st : ConnectionState) (c : FtlCommand)
      (now : Env services)
      → on_command services (some c) st env ≡ (now, conn_done)
      → IsServed (turned (taking env frame st c)).frames
  unfolding run step_conn step_frame
  returned-IsServed env frame st c now e = rw e (ground arith)

  taking-IsServed :
      (env : Env services) (frame : framed.Frame) (st : ConnectionState) (c : FtlCommand)
      → IsComplete c
      → ¬ IsRefused c
      → IsServed (turned (taking env frame st c)).frames
  taking-IsServed env frame st c k fine =
      by_task (on_command services (some c) st env).0 (on_command services (some c) st env).1 refl
    where
      by_task :
          (now : Env services) (task : ConnTask)
          → on_command services (some c) st env ≡ (now, task)
          → IsServed (turned (taking env frame st c)).frames
      by_task now (receiving st') e =
          absurd (fine (on_command-IsRefused services c st st' env k (ap (λ p. p.1) e)))
      by_task now (answering st' r then_do) e = answered-IsServed env frame st c now st' r then_do e
      by_task now conn_done e = returned-IsServed env frame st c now e

  pub Phase-IsServed :
      {s : Plain} (st : ConnectionState) (c : FtlCommand)
      → Phase services framed s
      → s.conn ≡ receiving st
      → s.to_conn.messages ≡ c ∷ []
      → ¬ IsRefused c
      → IsServed (turned s).frames
  Phase-IsServed st c (asking env frame st' e) h m fine = cc
  Phase-IsServed st c (giving env frame st' c' k e) h m fine = cc
  Phase-IsServed st c (given env frame st' c' k e) h m fine =
      let last : c' ≡ c = cc in
      subst (λ s. IsServed (turned s).frames) (sym e)
        (taking-IsServed env frame st' c' k (subst (λ c. ¬ IsRefused c) (sym last) fine))
  Phase-IsServed st c (replying env frame st' r then_do e) h m fine = cc
  Phase-IsServed st c (replied env frame st' r e) h m fine = cc
  Phase-IsServed st c (unanswered env frame st' before st'' c' k t e) h m fine = cc
  Phase-IsServed st c (last_reply env frame r e) h m fine = cc
  Phase-IsServed st c (deserted env frame frames l e) h m fine = cc
  Phase-IsServed st c (abandoned env frame st' e) h m fine = cc
  Phase-IsServed st c (over env frame e) h m fine = cc

module _ (services : Services) (framed : Framed services.World) (commands : Mpsc FtlCommand)
    (replies : Mpsc FrameCommand) where
  -- If after some schedule the command task waits for a command, and the channel holds one other
  -- than an attribute "Video" or "Audio" with a value other than "true" and "false", then two turns
  -- of the command task and one of the frame task later the frame task is back at reading from the
  -- client, or has returned.
  pub reached-IsServed :
      (ts : List Task) (env : Env services) (frame : framed.Frame) (st : ConnectionState)
      (c : FtlCommand)
      → (reached services framed commands replies ts env frame).conn ≡ receiving st
      → (commands.view (reached services framed commands replies ts env frame).to_conn).messages
        ≡ c ∷ []
      → ¬ IsRefused c
      → IsServed
          (run services framed commands replies turn
            (reached services framed commands replies ts env frame)).frames
  reached-IsServed ts env frame st c h m fine =
      subst (λ (t : Queued services framed). IsServed t.frames)
        (sym (
          view-run services framed commands replies turn
            (reached services framed commands replies ts env frame)))
        (Phase-IsServed services framed st c
          (reached-Phase services framed commands replies ts env frame) h m fine)
