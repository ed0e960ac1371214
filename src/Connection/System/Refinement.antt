-- ===== src/Connection/System/Refinement.antt =====
-- ingest/src/connection/mod.rs, `Connection::init`: the two tasks over any lawful channels, and
-- over plain queues.
use itgv.Base.{◌≡◌, refl, sym, ap, ◌∙◌, Bool, true, false, Option, none, some, List, [], ◌∷◌, ◌++◌}
use itgv.Connection.Frame.{handle_frame_command}
use itgv.Connection.Handler.{FrameCommand}
use itgv.Connection.Mpsc.{
  Sent, sent, full, closed, Received, got, waiting, ended, Mpsc, queues, map_sent, map_received,
}
use itgv.Connection.Remote.{Env, call}
use itgv.Connection.Services.{Services}
use itgv.Connection.Socket.{Next, command, failed, finished, panicked, Framed}
use itgv.Connection.State.{ConnectionState}
use itgv.Connection.System.{
  System, Task, frame_task, conn_task, init, step_frame, step_conn, run, step, or_stay, stop_frame,
  on_next, on_handed, on_instructions, on_written, instruct, frame_from, goes_to, takes,
  on_received, answers, on_answered, conn_from,
}
use itgv.Connection.Tasks.{
  FrameTask, reading, handing, instructed, frame_done, Then, ConnTask, receiving, answering,
  conn_done, on_command, after_answer,
}
use itgv.FtlCodec.{FtlCommand}

-- The system over plain queues.
abbrev pub Queued : (services : Services) → Framed services.World → Type 0
Queued services framed = System services framed (queues FtlCommand) (queues FrameCommand)

abbrev pub map_option {ℓ κ} : {A : Type ℓ} {B : Type κ} → (A → B) → Option A → Option B
map_option f none = none
map_option f (some a) = some (f a)

module _ (services : Services) (framed : Framed services.World) (commands : Mpsc FtlCommand)
    (replies : Mpsc FrameCommand) where
  abbrev Real : Type 0
  Real = System services framed commands replies

  abbrev Plain : Type 0
  Plain = Queued services framed

  -- What can be said of the system: its channels as queues.
  abbrev pub view : Real → Plain
  view s = record {
    env = s.env;
    frame = s.frame;
    frames = s.frames;
    conn = s.conn;
    to_conn = commands.view s.to_conn;
    to_frame = replies.view s.to_frame;
  }

  view-stop_frame :
      (s : Real)
      → view (stop_frame services framed commands replies s)
        ≡ stop_frame services framed (queues FtlCommand) (queues FrameCommand) (view s)
  view-stop_frame s =
      rw (commands.view-drop_sender s.to_conn, replies.view-drop_receiver s.to_frame)

  view-goes_to :
      (s : Real) (t : ConnTask)
      → view (goes_to services framed commands replies s t)
        ≡ goes_to services framed (queues FtlCommand) (queues FrameCommand) (view s) t
  view-goes_to s (receiving st) = refl
  view-goes_to s (answering st r then_do) = refl
  view-goes_to s conn_done =
      rw (commands.view-drop_receiver s.to_conn, replies.view-drop_sender s.to_frame)

  view-on_next :
      (s : Real) (n : Next)
      → view (on_next services framed commands replies s n)
        ≡ on_next services framed (queues FtlCommand) (queues FrameCommand) (view s) n
  view-on_next s (command c) = refl
  view-on_next s (failed e) = view-stop_frame s
  view-on_next s finished = view-stop_frame s
  view-on_next s panicked = view-stop_frame s

  view-on_handed :
      (s : Real) (r : Sent commands.Chan)
      → on_handed services framed
          (queues FtlCommand)
          (queues FrameCommand)
          (view s)
          (map_sent commands.view r)
        ≡ map_option view (on_handed services framed commands replies s r)
  view-on_handed s (sent c) = refl
  view-on_handed s full = refl
  view-on_handed s closed = ap some (sym (view-stop_frame s))

  view-on_written :
      (s : Real) (b : Bool)
      → view (on_written services framed commands replies s b)
        ≡ on_written services framed (queues FtlCommand) (queues FrameCommand) (view s) b
  view-on_written s true = refl
  view-on_written s false = view-stop_frame s

  view-instruct :
      (s : Real) (i : Option FrameCommand)
      → view (instruct services framed commands replies s i)
        ≡ instruct services framed (queues FtlCommand) (queues FrameCommand) (view s) i
  view-instruct s i =
      let (env', w) = handle_frame_command services framed i s.frame s.env in
      view-on_written (record s { env = env'; frame = w.frame }) w.done

  view-takes :
      (s : Real) (c : Option FtlCommand) (st : ConnectionState)
      → view (takes services framed commands replies s c st)
        ≡ takes services framed (queues FtlCommand) (queues FrameCommand) (view s) c st
  view-takes s c st =
      let (env', task) = on_command services c st s.env in
      view-goes_to (record s { env = env' }) task

  view-answers :
      (s : Real) (then_do : Then) (b : Bool) (st : ConnectionState)
      → view (answers services framed commands replies s then_do b st)
        ≡ answers services framed (queues FtlCommand) (queues FrameCommand) (view s) then_do b st
  view-answers s then_do b st =
      let (env', task) = after_answer services then_do b st s.env in
      view-goes_to (record s { env = env' }) task

  view-on_instructions :
      (s : Real) (r : Received FrameCommand replies.Chan)
      → on_instructions services framed
          (queues FtlCommand)
          (queues FrameCommand)
          (view s)
          (map_received replies.view r)
        ≡ map_option view (on_instructions services framed commands replies s r)
  view-on_instructions s (got a c) =
      ap some (sym (view-instruct (record s { to_frame = c }) (some a)))
  view-on_instructions s waiting = refl
  view-on_instructions s ended = ap some (sym (view-instruct s none))

  view-on_received :
      (s : Real) (st : ConnectionState) (r : Received FtlCommand commands.Chan)
      → on_received services framed
          (queues FtlCommand)
          (queues FrameCommand)
          (view s)
          st
          (map_received commands.view r)
        ≡ map_option view (on_received services framed commands replies s st r)
  view-on_received s st (got a c) =
      ap some (sym (view-takes (record s { to_conn = c }) (some a) st))
  view-on_received s st waiting = refl
  view-on_received s st ended = ap some (sym (view-takes s none st))

  view-on_answered :
      (s : Real) (st : ConnectionState) (then_do : Then) (r : Sent replies.Chan)
      → on_answered services framed
          (queues FtlCommand)
          (queues FrameCommand)
          (view s)
          st
          then_do
          (map_sent replies.view r)
        ≡ map_option view (on_answered services framed commands replies s st then_do r)
  view-on_answered s st then_do (sent c) =
      ap some (sym (view-answers (record s { to_frame = c }) then_do true st))
  view-on_answered s st then_do full = refl
  view-on_answered s st then_do closed = ap some (sym (view-answers s then_do false st))

  view-frame_from :
      (s : Real) (t : FrameTask)
      → frame_from services framed (queues FtlCommand) (queues FrameCommand) (view s) t
        ≡ map_option view (frame_from services framed commands replies s t)
  view-frame_from s reading =
      let (env', r) = call services (framed.next s.frame) s.env in
      ap some (sym (view-on_next (record s { env = env'; frame = r.frame }) r.item))
  view-frame_from s (handing c) =
      ap (on_handed services framed (queues FtlCommand) (queues FrameCommand) (view s))
        (sym (commands.view-send s.to_conn c))
      ∙ view-on_handed s (commands.send s.to_conn c)
  view-frame_from s instructed =
      ap (on_instructions services framed (queues FtlCommand) (queues FrameCommand) (view s))
        (sym (replies.view-recv s.to_frame))
      ∙ view-on_instructions s (replies.recv s.to_frame)
  view-frame_from s frame_done = refl

  view-conn_from :
      (s : Real) (t : ConnTask)
      → conn_from services framed (queues FtlCommand) (queues FrameCommand) (view s) t
        ≡ map_option view (conn_from services framed commands replies s t)
  view-conn_from s (receiving st) =
      ap (on_received services framed (queues FtlCommand) (queues FrameCommand) (view s) st)
        (sym (commands.view-recv s.to_conn))
      ∙ view-on_received s st (commands.recv s.to_conn)
  view-conn_from s (answering st r then_do) =
      ap (on_answered services framed (queues FtlCommand) (queues FrameCommand) (view s) st then_do)
        (sym (replies.view-send s.to_frame r))
      ∙ view-on_answered s st then_do (replies.send s.to_frame r)
  view-conn_from s conn_done = refl

  -- A task of the system over queues can step exactly when it can over the real channels, and to
  -- the same place.
  pub view-step :
      (t : Task) (s : Real)
      → step services framed (queues FtlCommand) (queues FrameCommand) t (view s)
        ≡ map_option view (step services framed commands replies t s)
  unfolding step_frame step_conn
  view-step frame_task s = view-frame_from s s.frames
  view-step conn_task s = view-conn_from s s.conn

  view-or_stay :
      (s : Real) (o : Option Real)
      → or_stay services framed
          (queues FtlCommand)
          (queues FrameCommand)
          (view s)
          (map_option view o)
        ≡ view (or_stay services framed commands replies s o)
  view-or_stay s none = refl
  view-or_stay s (some t) = refl

  -- Whatever channels with the documented behaviour are used, every schedule takes the two tasks
  -- through the same states as it does over plain queues: the same events in the same order, the
  -- same socket, the same task states and the same messages under way.
  pub view-run :
      (ts : List Task) (s : Real)
      → view (run services framed commands replies ts s)
        ≡ run services framed (queues FtlCommand) (queues FrameCommand) ts (view s)
  unfolding run
  view-run [] s = refl
  view-run (t ∷ ts) s =
      view-run ts
        (or_stay services framed commands replies s (step services framed commands replies t s))
      ∙ ap (run services framed (queues FtlCommand) (queues FrameCommand) ts) (
          sym (view-or_stay s (step services framed commands replies t s))
          ∙ ap (or_stay services framed (queues FtlCommand) (queues FrameCommand) (view s))
              (sym (view-step t s)))

  pub view-init :
      (env : Env services) (frame : framed.Frame)
      → view (init services framed commands replies env frame)
        ≡ init services framed (queues FtlCommand) (queues FrameCommand) env frame
  unfolding init
  view-init env frame = rw (commands.view-channel 2, replies.view-channel 2)

  pub run-append :
      (ts us : List Task) (s : System services framed commands replies)
      → run services framed commands replies (ts ++ us) s
        ≡ run services framed commands replies us (run services framed commands replies ts s)
  unfolding run
  run-append [] us s = refl
  run-append (t ∷ ts) us s = run-append ts us _
