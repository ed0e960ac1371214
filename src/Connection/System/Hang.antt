-- ===== src/Connection/System/Hang.antt =====
-- ingest/src/connection/mod.rs, `Connection::init`: a connection after an attribute with a bad
-- flag.
use itgv.Base.{◌≡◌, refl, sym, ap, subst, true, Option, some, List, [], ◌∷◌}
use itgv.Connection.Handler.Answers.{set_attribute-none_iff}
use itgv.Connection.Handler.{FrameCommand, handle_command, handle_attribute}
use itgv.Connection.Mpsc.{Mpsc, queues}
use itgv.Connection.Remote.{Env}
use itgv.Connection.Services.{Services}
use itgv.Connection.Socket.{Framed}
use itgv.Connection.State.{ConnectionState}
use itgv.Connection.System.Lockstep.{
  chan, at_, Phase, asking, giving, given, replying, replied, unanswered, last_reply, deserted,
  abandoned, over,
}
use itgv.Connection.System.Progress.{IsRefused}
use itgv.Connection.System.Refinement.{Queued, view-run}
use itgv.Connection.System.Safety.{reached, reached-Phase}
use itgv.Connection.System.{System, Task, frame_task, conn_task, step, step_frame, step_conn, run}
use itgv.Connection.Tasks.{FrameTask, ConnTask, instructed, receiving, on_command}
use itgv.FtlCodec.{FtlCommand, hmac, connect, ping, dot, attribute, disconnect}

refused-on_command :
    (services : Services) (c : FtlCommand) (st : ConnectionState) (env : Env services)
    → IsRefused c
    → on_command services (some c) st env ≡ (env, receiving st)
unfolding on_command handle_command
refused-on_command services (attribute entries) st env (key, value, k, v, bad) =
    rw (k, v, handle_attribute, (set_attribute-none_iff key value st).1 bad)
refused-on_command services hmac st env h = absurd h
refused-on_command services (connect _) st env h = absurd h
refused-on_command services ping st env h = absurd h
refused-on_command services dot st env h = absurd h
refused-on_command services disconnect st env h = absurd h

module _ (services : Services) (framed : Framed services.World) where
  abbrev Plain : Type 0
  Plain = Queued services framed

  abbrev plain_step : Task → Plain → Option Plain
  plain_step = step services framed (queues FtlCommand) (queues FrameCommand)

  abbrev frozen : Env services → framed.Frame → ConnectionState → Plain
  frozen env frame st =
      at_ services framed env frame instructed (receiving st) (chan [] true true)
        (chan [] true true)

  -- With both channels empty and each task waiting for the other, nothing moves.
  run-frozen :
      (ts : List Task) (env : Env services) (frame : framed.Frame) (st : ConnectionState)
      → run services framed (queues FtlCommand) (queues FrameCommand) ts (frozen env frame st)
        ≡ frozen env frame st
  unfolding run step_frame step_conn
  run-frozen [] env frame st = refl
  run-frozen (frame_task ∷ ts) env frame st = run-frozen ts env frame st
  run-frozen (conn_task ∷ ts) env frame st = run-frozen ts env frame st

  given-frozen :
      (ts : List Task) (env : Env services) (frame : framed.Frame) (st : ConnectionState)
      (c : FtlCommand)
      → IsRefused c
      → run services framed (queues FtlCommand) (queues FrameCommand) (conn_task ∷ ts) (
          at_ services framed env frame instructed
            (receiving st)
            (chan (c ∷ []) true true)
            (chan [] true true))
        ≡ frozen env frame st
  unfolding run step_conn
  given-frozen ts env frame st c bad =
      rw (refused-on_command services c st env bad) (run-frozen ts env frame st)

  -- Each task waits for the other, with nothing done outside since `env`.
  pub record Hangs (env : Env services) (st : ConnectionState) (frames : FrameTask)
      (conn : ConnTask) (now : Env services) : Type 0 where
    pub frame_waits : frames ≡ instructed
    pub conn_waits : conn ≡ receiving st
    pub same_env : now ≡ env

  abbrev later : List Task → Plain → Plain
  later ts s = run services framed (queues FtlCommand) (queues FrameCommand) (conn_task ∷ ts) s

  abbrev HangsFrom : List Task → ConnectionState → Plain → Type 0
  HangsFrom ts st s = Hangs s.env st (later ts s).frames (later ts s).conn (later ts s).env

  frozen-HangsFrom :
      (ts : List Task) (env : Env services) (frame : framed.Frame) (st : ConnectionState)
      (c : FtlCommand)
      → IsRefused c
      → HangsFrom ts st (
          at_ services framed env frame instructed
            (receiving st)
            (chan (c ∷ []) true true)
            (chan [] true true))
  frozen-HangsFrom ts env frame st c bad =
      let e = given-frozen ts env frame st c bad in
      record {
        frame_waits = ap (λ s. s.frames) e;
        conn_waits = ap (λ s. s.conn) e;
        same_env = ap (λ s. s.env) e;
      }

  pub Phase-HangsFrom :
      {s : Plain} (ts : List Task) (st : ConnectionState) (c : FtlCommand)
      → Phase services framed s
      → s.conn ≡ receiving st
      → s.to_conn.messages ≡ c ∷ []
      → IsRefused c
      → HangsFrom ts st s
  Phase-HangsFrom ts st c (asking env frame st' e) h m bad = cc
  Phase-HangsFrom ts st c (giving env frame st' c' k e) h m bad = cc
  Phase-HangsFrom ts st c (given env frame st' c' k e) h m bad =
      let same : st' ≡ st = cc in
      let last : c ≡ c' = cc in
      subst (HangsFrom ts st) (sym e) (
        subst
          (λ x. HangsFrom ts x (
            at_ services framed env frame instructed (receiving st') (chan (c' ∷ []) true true)
              (chan [] true true)))
          same (frozen-HangsFrom ts env frame st' c' (subst IsRefused last bad)))
  Phase-HangsFrom ts st c (replying env frame st' r then_do e) h m bad = cc
  Phase-HangsFrom ts st c (replied env frame st' r e) h m bad = cc
  Phase-HangsFrom ts st c (unanswered env frame st' before st'' c' k t e) h m bad = cc
  Phase-HangsFrom ts st c (last_reply env frame r e) h m bad = cc
  Phase-HangsFrom ts st c (deserted env frame frames l e) h m bad = cc
  Phase-HangsFrom ts st c (abandoned env frame st' e) h m bad = cc
  Phase-HangsFrom ts st c (over env frame e) h m bad = cc

module _ (services : Services) (framed : Framed services.World) (commands : Mpsc FtlCommand)
    (replies : Mpsc FrameCommand) where
  -- The connection after a schedule, the command task's next step, and a further schedule.
  abbrev pub reached_later :
      List Task → List Task → Env services → framed.Frame → System services framed commands replies
  reached_later ts us env frame =
      run services framed commands replies (conn_task ∷ us)
        (reached services framed commands replies ts env frame)

  -- If after some schedule the command task waits for a command, and the channel holds an attribute
  -- "Video" or "Audio" with a value other than "true" and "false", then from the command task's
  -- next step on, whatever the schedule, the frame task waits for instructions, the command task
  -- waits for a command with the state that it had, its port included, and nothing is done outside
  -- any more.
  pub reached_hang :
      (ts us : List Task) (env : Env services) (frame : framed.Frame) (st : ConnectionState)
      (c : FtlCommand)
      → (reached services framed commands replies ts env frame).conn ≡ receiving st
      → (commands.view (reached services framed commands replies ts env frame).to_conn).messages
        ≡ c ∷ []
      → IsRefused c
      → Hangs services framed
          (reached services framed commands replies ts env frame).env
          st
          (reached_later ts us env frame).frames
          (reached_later ts us env frame).conn
          (reached_later ts us env frame).env
  reached_hang ts us env frame st c h m bad =
      subst
        (λ (t : Queued services framed).
          Hangs services framed (reached services framed commands replies ts env frame).env st
            t.frames t.conn t.env)
        (sym (
          view-run services framed commands replies (conn_task ∷ us)
            (reached services framed commands replies ts env frame)))
        (Phase-HangsFrom services framed us st c
          (reached-Phase services framed commands replies ts env frame) h m bad)
