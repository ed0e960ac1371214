-- ===== src/Connection/System/Lockstep.antt =====
-- ingest/src/connection/mod.rs, `Connection::init`: the phases of a connection, as a data type, and
-- that each step goes from one phase to another.
use itgv.Base.{ap, ◌≡◌, refl, sym, subst, Bool, true, false, some, List, [], ◌∷◌}
use itgv.Connection.Frame.{handle_frame_command}
use itgv.Connection.Handler.{FrameCommand}
use itgv.Connection.Mpsc.{Queue, queues}
use itgv.Connection.Remote.{Env, call}
use itgv.Connection.Services.{Services}
use itgv.Connection.Socket.{Next, command, failed, finished, panicked, Framed}
use itgv.Connection.State.{ConnectionState, new}
use itgv.Connection.System.Refinement.{Queued}
use itgv.Connection.System.{
  Task, frame_task, conn_task, init, step_frame, step_conn, run, step, or_stay, on_next, on_written,
  goes_to,
}
use itgv.Connection.Tasks.{
  FrameTask, reading, handing, instructed, frame_done, Then, continue, connected, give_up, ConnTask,
  receiving, answering, conn_done, on_command, after_answer,
}
use itgv.FtlCodec.Commands.{IsComplete, decode-IsComplete}
use itgv.FtlCodec.{FtlCommand}

-- The frame task has not returned.
abbrev pub IsLive : FrameTask → Type 0
IsLive frame_done = ⊥
IsLive reading = Unit {0}
IsLive (handing c) = Unit {0}
IsLive instructed = Unit {0}

-- A channel that holds `messages`, with the ends that are still there.
abbrev pub chan : {A : Type 0} → List A → Bool → Bool → Queue A
chan messages sender receiver = record {
  messages = messages;
  capacity = 2;
  sender = sender;
  receiver = receiver;
}

module _ (services : Services) (framed : Framed services.World) where
  abbrev Plain : Type 0
  Plain = Queued services framed

  abbrev pub at_ :
      Env services
      → framed.Frame
      → FrameTask
      → ConnTask
      → Queue FtlCommand
      → Queue FrameCommand
      → Plain
  at_ env frame frames conn to_conn to_frame = record {
    env = env;
    frame = frame;
    frames = frames;
    conn = conn;
    to_conn = to_conn;
    to_frame = to_frame;
  }

  -- Where a connection can be. The frame task reads, hands a command over, and waits for the answer;
  -- the command task waits for a command, or sends an answer. In `unanswered` the command was taken
  -- and no answer follows.
  pub data Phase (s : Plain) : Type 0 where
    asking :
        (env : Env services) (frame : framed.Frame) (st : ConnectionState)
        → s ≡ at_ env frame reading (receiving st) (chan [] true true) (chan [] true true)
        → Phase s
    giving :
        (env : Env services) (frame : framed.Frame) (st : ConnectionState) (c : FtlCommand)
        → IsComplete c
        → s ≡ at_ env frame (handing c) (receiving st) (chan [] true true) (chan [] true true)
        → Phase s
    given :
        (env : Env services) (frame : framed.Frame) (st : ConnectionState) (c : FtlCommand)
        → IsComplete c
        → s ≡ at_ env frame instructed (receiving st) (chan (c ∷ []) true true) (chan [] true true)
        → Phase s
    replying :
        (env : Env services) (frame : framed.Frame) (st : ConnectionState) (r : FrameCommand)
        (then_do : Then)
        → s
          ≡ at_ env frame instructed
              (answering st r then_do)
              (chan [] true true)
              (chan [] true true)
        → Phase s
    replied :
        (env : Env services) (frame : framed.Frame) (st : ConnectionState) (r : FrameCommand)
        → s ≡ at_ env frame instructed (receiving st) (chan [] true true) (chan (r ∷ []) true true)
        → Phase s
    unanswered :
        (env : Env services) (frame : framed.Frame) (st : ConnectionState) (before : Env services)
        (st' : ConnectionState) (c : FtlCommand)
        → IsComplete c
        → (on_command services (some c) st' before).1 ≡ receiving st
        → s ≡ at_ env frame instructed (receiving st) (chan [] true true) (chan [] true true)
        → Phase s
    last_reply :
        (env : Env services) (frame : framed.Frame) (r : FrameCommand)
        → s ≡ at_ env frame instructed conn_done (chan [] true false) (chan (r ∷ []) false true)
        → Phase s
    deserted :
        (env : Env services) (frame : framed.Frame) (frames : FrameTask)
        → IsLive frames
        → s ≡ at_ env frame frames conn_done (chan [] true false) (chan [] false true)
        → Phase s
    abandoned :
        (env : Env services) (frame : framed.Frame) (st : ConnectionState)
        → s ≡ at_ env frame frame_done (receiving st) (chan [] false true) (chan [] true false)
        → Phase s
    over :
        (env : Env services) (frame : framed.Frame)
        → s ≡ at_ env frame frame_done conn_done (chan [] false false) (chan [] false false)
        → Phase s

  abbrev in_world : Env services → Plain → Plain
  in_world now s = record s { env = now }

  -- The phase does not depend on the world.
  pub Phase-env : {s : Plain} (now : Env services) → Phase s → Phase (record s { env = now })
  Phase-env now (asking env frame st e) = asking now frame st (ap (in_world now) e)
  Phase-env now (giving env frame st c k e) = giving now frame st c k (ap (in_world now) e)
  Phase-env now (given env frame st c k e) = given now frame st c k (ap (in_world now) e)
  Phase-env now (replying env frame st r then_do e) =
      replying now frame st r then_do (ap (in_world now) e)
  Phase-env now (replied env frame st r e) = replied now frame st r (ap (in_world now) e)
  Phase-env now (unanswered env frame st before st' c k t e) =
      unanswered now frame st before st' c k t (ap (in_world now) e)
  Phase-env now (last_reply env frame r e) = last_reply now frame r (ap (in_world now) e)
  Phase-env now (deserted env frame frames h e) = deserted now frame frames h (ap (in_world now) e)
  Phase-env now (abandoned env frame st e) = abandoned now frame st (ap (in_world now) e)
  Phase-env now (over env frame e) = over now frame (ap (in_world now) e)

  abbrev pub after : Task → Plain → Plain
  after t s =
      or_stay services framed (queues FtlCommand) (queues FrameCommand) s
        (step services framed (queues FtlCommand) (queues FrameCommand) t s)

  abbrev Keeps : Task → Plain → Type 0
  Keeps t s = Phase (after t s)

  next-Phase :
      (env : Env services) (frame : framed.Frame) (st : ConnectionState) (n : Next)
      → ((c : FtlCommand) → n ≡ command c → IsComplete c)
      → Phase (
          on_next services framed
            (queues FtlCommand)
            (queues FrameCommand)
            (at_ env frame reading (receiving st) (chan [] true true) (chan [] true true))
            n)
  next-Phase env frame st (command c) h = giving env frame st c (h c refl) refl
  next-Phase env frame st (failed e) h = abandoned env frame st refl
  next-Phase env frame st finished h = abandoned env frame st refl
  next-Phase env frame st panicked h = abandoned env frame st refl

  next_IsComplete :
      (env : Env services) (frame : framed.Frame) (c : FtlCommand)
      → (framed.next frame env.world).1.item ≡ command c
      → IsComplete c
  next_IsComplete env frame c e =
      let (self, buf, d) = framed.next_decodes frame env.world c e in decode-IsComplete self buf c d

  written-Phase :
      (env : Env services) (frame : framed.Frame) (st : ConnectionState) (done : Bool)
      → Phase (
          on_written services framed
            (queues FtlCommand)
            (queues FrameCommand)
            (at_ env frame instructed (receiving st) (chan [] true true) (chan [] true true))
            done)
  written-Phase env frame st true = asking env frame st refl
  written-Phase env frame st false = abandoned env frame st refl

  last_written-Phase :
      (env : Env services) (frame : framed.Frame) (done : Bool)
      → Phase (
          on_written services framed
            (queues FtlCommand)
            (queues FrameCommand)
            (at_ env frame instructed conn_done (chan [] true false) (chan [] false true))
            done)
  last_written-Phase env frame true = deserted env frame reading tt refl
  last_written-Phase env frame false = over env frame refl

  taken-Phase :
      (env : Env services) (frame : framed.Frame) (st : ConnectionState) (before : Env services)
      (st' : ConnectionState) (c : FtlCommand) (task : ConnTask)
      → IsComplete c
      → (on_command services (some c) st' before).1 ≡ task
      → Phase (
          goes_to services framed
            (queues FtlCommand)
            (queues FrameCommand)
            (at_ env frame instructed (receiving st) (chan [] true true) (chan [] true true))
            task)
  taken-Phase env frame st before st' c (receiving st2) k e =
      unanswered env frame st2 before st' c k e refl
  taken-Phase env frame st before st' c (answering st2 r then_do) k e =
      replying env frame st2 r then_do refl
  taken-Phase env frame st before st' c conn_done k e = deserted env frame instructed tt refl

  answered-Phase :
      (env : Env services) (frame : framed.Frame) (st : ConnectionState) (r : FrameCommand)
      (then_do : Then)
      → Keeps conn_task (
          at_ env frame instructed (answering st r then_do) (chan [] true true) (chan [] true true))
  unfolding step_conn after_answer
  answered-Phase env frame st r continue = replied _ frame st r refl
  answered-Phase env frame st r connected = replied _ frame st r refl
  answered-Phase env frame st r give_up = last_reply _ frame r refl

  deserted_next-Phase :
      (env : Env services) (frame : framed.Frame) (n : Next)
      → Phase (
          on_next services framed
            (queues FtlCommand)
            (queues FrameCommand)
            (at_ env frame reading conn_done (chan [] true false) (chan [] false true))
            n)
  deserted_next-Phase env frame (command c) = deserted env frame (handing c) tt refl
  deserted_next-Phase env frame (failed e) = over env frame refl
  deserted_next-Phase env frame finished = over env frame refl
  deserted_next-Phase env frame panicked = over env frame refl

  deserted-Phase :
      (env : Env services) (frame : framed.Frame) (frames : FrameTask)
      → IsLive frames
      → Keeps frame_task (at_ env frame frames conn_done (chan [] true false) (chan [] false true))
  unfolding step_frame handle_frame_command
  deserted-Phase env frame reading h =
      let (env', r) = call services (framed.next frame) env in
      deserted_next-Phase env' r.frame r.item
  deserted-Phase env frame (handing c) h = over env frame refl
  deserted-Phase env frame instructed h = over env frame refl
  deserted-Phase env frame frame_done h = absurd h

  abandoned-Phase :
      (env : Env services) (frame : framed.Frame) (st : ConnectionState)
      → Keeps conn_task
          (at_ env frame frame_done (receiving st) (chan [] false true) (chan [] true false))
  unfolding step_conn on_command
  abandoned-Phase env frame st = over _ frame refl

  pub frame-Phase : (s : Plain) → Phase s → Keeps frame_task s
  unfolding step_frame
  frame-Phase s (asking env frame st e) =
      let (env', r) = call services (framed.next frame) env in
      subst (Keeps frame_task) (sym e)
        (next-Phase env' r.frame st r.item (next_IsComplete env frame))
  frame-Phase s (giving env frame st c k e) =
      subst (Keeps frame_task) (sym e) (given env frame st c k refl)
  frame-Phase s (given env frame st c k e) =
      subst (Keeps frame_task) (sym e) (given env frame st c k refl)
  frame-Phase s (replying env frame st r then_do e) =
      subst (Keeps frame_task) (sym e) (replying env frame st r then_do refl)
  frame-Phase s (replied env frame st r e) =
      let (env', w) = handle_frame_command services framed (some r) frame env in
      subst (Keeps frame_task) (sym e) (written-Phase env' w.frame st w.done)
  frame-Phase s (unanswered env frame st before st' c k t e) =
      subst (Keeps frame_task) (sym e) (unanswered env frame st before st' c k t refl)
  frame-Phase s (last_reply env frame r e) =
      let (env', w) = handle_frame_command services framed (some r) frame env in
      subst (Keeps frame_task) (sym e) (last_written-Phase env' w.frame w.done)
  frame-Phase s (deserted env frame frames h e) =
      subst (Keeps frame_task) (sym e) (deserted-Phase env frame frames h)
  frame-Phase s (abandoned env frame st e) =
      subst (Keeps frame_task) (sym e) (abandoned env frame st refl)
  frame-Phase s (over env frame e) = subst (Keeps frame_task) (sym e) (over env frame refl)

  pub conn-Phase : (s : Plain) → Phase s → Keeps conn_task s
  unfolding step_conn
  conn-Phase s (asking env frame st e) = subst (Keeps conn_task) (sym e) (asking env frame st refl)
  conn-Phase s (giving env frame st c k e) =
      subst (Keeps conn_task) (sym e) (giving env frame st c k refl)
  conn-Phase s (given env frame st c k e) =
      let (env', task) = on_command services (some c) st env in
      subst (Keeps conn_task) (sym e) (taken-Phase env' frame st env st c task k refl)
  conn-Phase s (replying env frame st r then_do e) =
      subst (Keeps conn_task) (sym e) (answered-Phase env frame st r then_do)
  conn-Phase s (replied env frame st r e) =
      subst (Keeps conn_task) (sym e) (replied env frame st r refl)
  conn-Phase s (unanswered env frame st before st' c k t e) =
      subst (Keeps conn_task) (sym e) (unanswered env frame st before st' c k t refl)
  conn-Phase s (last_reply env frame r e) =
      subst (Keeps conn_task) (sym e) (last_reply env frame r refl)
  conn-Phase s (deserted env frame frames h e) =
      subst (Keeps conn_task) (sym e) (deserted env frame frames h refl)
  conn-Phase s (abandoned env frame st e) =
      subst (Keeps conn_task) (sym e) (abandoned-Phase env frame st)
  conn-Phase s (over env frame e) = subst (Keeps conn_task) (sym e) (over env frame refl)

  pub run-Phase :
      (ts : List Task) (s : Plain)
      → Phase s
      → Phase (run services framed (queues FtlCommand) (queues FrameCommand) ts s)
  unfolding run
  run-Phase [] s p = p
  run-Phase (frame_task ∷ ts) s p = run-Phase ts (after frame_task s) (frame-Phase s p)
  run-Phase (conn_task ∷ ts) s p = run-Phase ts (after conn_task s) (conn-Phase s p)

  pub init-Phase :
      (env : Env services) (frame : framed.Frame)
      → Phase (init services framed (queues FtlCommand) (queues FrameCommand) env frame)
  unfolding init
  init-Phase env frame = asking env frame new refl
