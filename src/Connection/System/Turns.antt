-- ===== src/Connection/System/Turns.antt =====
-- ingest/src/connection/mod.rs, `Connection::init`: what the phases say of a state over plain
-- queues, on who has a step and what is under way.
use itgv.Base.{
  ℕ, ◌+◌, ◌≤◌, ◌≡◌, ◌≢◌, ◌⊎◌, inl, inr, ap, true, false, Option, none, some, [], arith, length,
}
use itgv.Connection.Handler.{FrameCommand}
use itgv.Connection.Mpsc.{queues}
use itgv.Connection.Remote.{Env}
use itgv.Connection.Services.{Services}
use itgv.Connection.Socket.{Framed}
use itgv.Connection.State.{ConnectionState}
use itgv.Connection.System.Lockstep.{
  chan, IsLive, at_, Phase, asking, giving, given, replying, replied, unanswered, last_reply,
  deserted, abandoned, over,
}
use itgv.Connection.System.Progress.{IsRefused, on_command-IsRefused}
use itgv.Connection.System.Refinement.{Queued}
use itgv.Connection.System.{Task, frame_task, conn_task, step_frame, step_conn, step}
use itgv.Connection.Tasks.{
  FrameTask, reading, handing, instructed, frame_done, Then, ConnTask, receiving, answering,
  conn_done, on_command,
}
use itgv.FtlCodec.{FtlCommand}

module _ (services : Services) (framed : Framed services.World) where
  abbrev Plain : Type 0
  Plain = Queued services framed

  abbrev pub moves : Task → Plain → Option Plain
  moves = step services framed (queues FtlCommand) (queues FrameCommand)

  abbrev pub under_way : Plain → ℕ
  under_way s = length s.to_conn.messages + length s.to_frame.messages

  pub Phase-under_way : {s : Plain} → Phase services framed s → under_way s ≤ 1
  Phase-under_way (asking env frame st e) = rw e (omega arith)
  Phase-under_way (giving env frame st c k e) = rw e (omega arith)
  Phase-under_way (given env frame st c k e) = rw e (omega arith)
  Phase-under_way (replying env frame st r then_do e) = rw e (omega arith)
  Phase-under_way (replied env frame st r e) = rw e (omega arith)
  Phase-under_way (unanswered env frame st before st' c k t e) = rw e (omega arith)
  Phase-under_way (last_reply env frame r e) = rw e (omega arith)
  Phase-under_way (deserted env frame frames h e) = rw e (omega arith)
  Phase-under_way (abandoned env frame st e) = rw e (omega arith)
  Phase-under_way (over env frame e) = rw e (omega arith)

  abbrev OneWaits : Plain → Type 0
  OneWaits s = (moves frame_task s ≡ none) ⊎ (moves conn_task s ≡ none)

  pub Phase-OneWaits : {s : Plain} → Phase services framed s → OneWaits s
  unfolding step_frame step_conn
  Phase-OneWaits (asking env frame st e) = inr (rw e)
  Phase-OneWaits (giving env frame st c k e) = inr (rw e)
  Phase-OneWaits (given env frame st c k e) = inl (rw e)
  Phase-OneWaits (replying env frame st r then_do e) = inl (rw e)
  Phase-OneWaits (replied env frame st r e) = inr (rw e)
  Phase-OneWaits (unanswered env frame st before st' c k t e) = inr (rw e)
  Phase-OneWaits (last_reply env frame r e) = inr (rw e)
  Phase-OneWaits (deserted env frame frames h e) = inr (rw e)
  Phase-OneWaits (abandoned env frame st e) = inl (rw e)
  Phase-OneWaits (over env frame e) = inl (rw e)

  -- Whoever answers finds an empty channel whose reader is waiting.
  pub Phase-answering :
      {s : Plain} {st : ConnectionState} {r : FrameCommand} {then_do : Then}
      → Phase services framed s
      → s.conn ≡ answering st r then_do
      → s.to_frame ≡ chan [] true true
  Phase-answering (asking env frame st e) h = cc (ap (λ s. s.conn) e)
  Phase-answering (giving env frame st c k e) h = cc (ap (λ s. s.conn) e)
  Phase-answering (given env frame st c k e) h = cc (ap (λ s. s.conn) e)
  Phase-answering (replying env frame st r then_do e) h = ap (λ s. s.to_frame) e
  Phase-answering (replied env frame st r e) h = cc (ap (λ s. s.conn) e)
  Phase-answering (unanswered env frame st before st' c k t e) h = cc (ap (λ s. s.conn) e)
  Phase-answering (last_reply env frame r e) h = cc (ap (λ s. s.conn) e)
  Phase-answering (deserted env frame frames k e) h = cc (ap (λ s. s.conn) e)
  Phase-answering (abandoned env frame st e) h = cc (ap (λ s. s.conn) e)
  Phase-answering (over env frame e) h = cc (ap (λ s. s.conn) e)

  -- Both tasks returned.
  pub record IsOver (frames : FrameTask) (conn : ConnTask) : Type 0 where
    pub frame_returned : frames ≡ frame_done
    pub conn_returned : conn ≡ conn_done

  -- Each task waits for the other: the command was refused with no answer.
  pub record IsHung (frames : FrameTask) (conn : ConnTask) : Type 0 where
    pub state : ConnectionState
    pub before : ConnectionState
    pub env_before : Env services
    pub last : FtlCommand
    pub refused : IsRefused last
    pub taken : (on_command services (some last) before env_before).1 ≡ receiving state
    pub frame_waits : frames ≡ instructed
    pub conn_waits : conn ≡ receiving state

  deserted_moves :
      (env : Env services) (frame : framed.Frame) (frames : FrameTask)
      → IsLive frames
      → moves frame_task
          (at_ services framed env frame frames conn_done (chan [] true false) (chan [] false true))
        ≢ none
  unfolding step_frame
  deserted_moves env frame reading l h = cc
  deserted_moves env frame (handing c) l h = cc
  deserted_moves env frame instructed l h = cc
  deserted_moves env frame frame_done l h = l

  pub Phase-stuck :
      {s : Plain}
      → Phase services framed s
      → moves frame_task s ≡ none
      → moves conn_task s ≡ none
      → IsOver s.frames s.conn ⊎ IsHung s.frames s.conn
  unfolding step_frame step_conn
  Phase-stuck (asking env frame st e) f c = cc (rw e at f)
  Phase-stuck (giving env frame st c k e) f h = cc (rw e at f)
  Phase-stuck (given env frame st c k e) f h = cc (rw e at h)
  Phase-stuck (replying env frame st r then_do e) f h = cc (rw e at h)
  Phase-stuck (replied env frame st r e) f h = cc (rw e at f)
  Phase-stuck (unanswered env frame st before st' c k t e) f h = inr (record {
    state = st;
    before = st';
    env_before = before;
    last = c;
    refused = on_command-IsRefused services c st' st before k t;
    taken = t;
    frame_waits = ap (λ s. s.frames) e;
    conn_waits = ap (λ s. s.conn) e;
  })
  Phase-stuck (last_reply env frame r e) f h = cc (rw e at f)
  Phase-stuck (deserted env frame frames l e) f h =
      absurd (deserted_moves env frame frames l (rw e at f))
  Phase-stuck (abandoned env frame st e) f h = cc (rw e at h)
  Phase-stuck (over env frame e) f h =
      inl (record { frame_returned = ap (λ s. s.frames) e; conn_returned = ap (λ s. s.conn) e })
