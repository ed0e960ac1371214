-- ===== src/Connection/System/Closing.antt =====
-- ingest/src/connection/mod.rs, `Connection::init`: how a connection ends.
use itgv.Base.{◌≡◌, refl, sym, ap, subst, ◌∙◌, true, false, List, [], ◌∷◌, ◌++◌}
use itgv.Connection.Handler.{FrameCommand}
use itgv.Connection.Mpsc.{Mpsc, queues}
use itgv.Connection.Ports.{allocated_ports, freed_ports}
use itgv.Connection.Remote.{Env}
use itgv.Connection.Services.{Services}
use itgv.Connection.Socket.{Framed}
use itgv.Connection.State.{ConnectionState}
use itgv.Connection.System.Lockstep.{
  chan, at_, IsLive, Phase, asking, giving, given, replying, replied, unanswered, last_reply,
  deserted, abandoned, over,
}
use itgv.Connection.System.Ports.{reached_ports}
use itgv.Connection.System.Refinement.{run-append, Queued, view-run}
use itgv.Connection.System.Safety.{reached, reached-Phase}
use itgv.Connection.System.{System, Task, frame_task, conn_task, run, step_frame, step_conn}
use itgv.Connection.Tasks.PortMoves.{held}
use itgv.Connection.Tasks.{frame_done, receiving, conn_done, on_command, clean_up}
use itgv.FtlCodec.{FtlCommand}

module _ (services : Services) (framed : Framed services.World) where
  abbrev Plain : Type 0
  Plain = Queued services framed

  abbrev runs : List Task → Plain → Plain
  runs ts s = run services framed (queues FtlCommand) (queues FrameCommand) ts s

  -- A task that returned stays so.
  run-conn_done :
      (ts : List Task) (env : Env services) (frame : framed.Frame)
      → (runs ts (
          at_ services framed env frame frame_done conn_done
            (chan [] false false)
            (chan [] false false))).conn
        ≡ conn_done
  unfolding run step_frame step_conn
  run-conn_done [] env frame = refl
  run-conn_done (frame_task ∷ ts) env frame = run-conn_done ts env frame
  run-conn_done (conn_task ∷ ts) env frame = run-conn_done ts env frame

  abandoned-conn_done :
      (ts : List Task) (env : Env services) (frame : framed.Frame) (st : ConnectionState)
      → (runs (conn_task ∷ ts) (
          at_ services framed env frame frame_done
            (receiving st)
            (chan [] false true)
            (chan [] true false))).conn
        ≡ conn_done
  unfolding run step_conn on_command clean_up
  abandoned-conn_done ts env frame st = run-conn_done ts _ frame

  abbrev Ends : List Task → Plain → Type 0
  Ends ts s = (runs (conn_task ∷ ts) s).conn ≡ conn_done

  pub Phase-Ends :
      {s : Plain} (ts : List Task) → Phase services framed s → s.frames ≡ frame_done → Ends ts s
  Phase-Ends ts (asking env frame st e) h = cc (ap (λ s. s.frames) e)
  Phase-Ends ts (giving env frame st c k e) h = cc (ap (λ s. s.frames) e)
  Phase-Ends ts (given env frame st c k e) h = cc (ap (λ s. s.frames) e)
  Phase-Ends ts (replying env frame st r then_do e) h = cc (ap (λ s. s.frames) e)
  Phase-Ends ts (replied env frame st r e) h = cc (ap (λ s. s.frames) e)
  Phase-Ends ts (unanswered env frame st before st' c k t e) h = cc (ap (λ s. s.frames) e)
  Phase-Ends ts (last_reply env frame r e) h = cc (ap (λ s. s.frames) e)
  Phase-Ends ts (deserted env frame frames l e) h =
      absurd (subst IsLive (sym (ap (λ s. s.frames) e) ∙ h) l)
  Phase-Ends ts (abandoned env frame st e) h =
      subst (Ends ts) (sym e) (abandoned-conn_done ts env frame st)
  Phase-Ends ts (over env frame e) h = subst (Ends ts) (sym e) (over-conn_done ts env frame)
    where
      over-conn_done :
          (ts : List Task) (env : Env services) (frame : framed.Frame)
          → Ends ts (
              at_ services framed env frame frame_done conn_done
                (chan [] false false)
                (chan [] false false))
      over-conn_done ts env frame = run-conn_done (conn_task ∷ ts) env frame

module _ (services : Services) (framed : Framed services.World) (commands : Mpsc FtlCommand)
    (replies : Mpsc FrameCommand) where
  -- On a connection that starts with every port given back: if the frame task has returned after
  -- some schedule, then one turn of the command task later, whatever runs after it, the command task
  -- has returned too and every port that was given out has been given back.
  pub reached_closing :
      (ts us : List Task) (env : Env services) (frame : framed.Frame)
      → allocated_ports env.events ≡ freed_ports env.events
      → (reached services framed commands replies ts env frame).frames ≡ frame_done
      → ((reached services framed commands replies (ts ++ conn_task ∷ us) env frame).conn
          ≡ conn_done)
        × (allocated_ports
              (reached services framed commands replies (ts ++ conn_task ∷ us) env frame).env.events
            ≡ freed_ports
                (reached services framed commands replies
                  (ts ++ conn_task ∷ us)
                  env
                  frame).env.events)
  reached_closing ts us env frame h e = (
    ended,
    reached_ports services framed commands replies (ts ++ conn_task ∷ us) env frame h
        ∙ ap
            (λ t.
              held t
              ++ freed_ports
                  (reached services framed commands replies (ts ++ conn_task ∷ us) env
                    frame).env.events)
            ended,
  )
    where
      ended :
          (reached services framed commands replies (ts ++ conn_task ∷ us) env frame).conn
          ≡ conn_done
      ended =
          ap (λ (s : System services framed commands replies). s.conn)
            (run-append services framed commands replies ts (conn_task ∷ us) _)
          ∙ ap (λ (s : Queued services framed). s.conn)
              (view-run services framed commands replies (conn_task ∷ us)
                (reached services framed commands replies ts env frame))
          ∙ Phase-Ends services framed us
              (reached-Phase services framed commands replies ts env frame) e
