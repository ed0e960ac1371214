-- ===== src/Connection/System/Account.antt =====
-- ingest/src/connection/mod.rs, `Connection::init`: what a predicate on the events and on where the
-- command task waits must satisfy to hold over a whole connection.
use itgv.Base.{sym, ap, subst, ◌∙◌, Bool, true, false, Option, none, some, List, [], ◌∷◌}
use itgv.Connection.Frame.Order.{Wrote, handle_frame_command-Wrote}
use itgv.Connection.Frame.{handle_frame_command}
use itgv.Connection.Handler.{FrameCommand}
use itgv.Connection.Mpsc.{Queue, Mpsc, queues}
use itgv.Connection.Ports.{Quiet, handle_frame_command-Quiet}
use itgv.Connection.Remote.{Env, Event, call}
use itgv.Connection.Services.{Services}
use itgv.Connection.Socket.{Next, command, failed, finished, panicked, Framed}
use itgv.Connection.State.{ConnectionState, new}
use itgv.Connection.System.Lockstep.{
  chan, at_, Phase, asking, giving, given, replying, replied, unanswered, last_reply, deserted,
  abandoned, over, frame-Phase, conn-Phase, init-Phase, after,
}
use itgv.Connection.System.Refinement.{Queued, view, view-run, view-init}
use itgv.Connection.System.Safety.{reached}
use itgv.Connection.System.{
  System, Task, frame_task, step, conn_task, init, run, step_frame, step_conn, or_stay, on_next,
  on_written, goes_to, on_handed, on_instructions, frame_from, instruct, takes, answers,
}
use itgv.Connection.Mpsc.{Sent, sent, full, closed, Received, got, waiting, ended}
use itgv.Connection.Remote.Growth.{Grows}
use itgv.Connection.Tasks.Growth.{handle_frame_command-Growing}
use itgv.Connection.Tasks.{
  FrameTask, reading, handing, instructed, frame_done, ConnTask, receiving, answering, conn_done,
  on_command, after_answer, Then,
}
use itgv.FtlCodec.{FtlCommand}

-- A predicate that is kept by what writes no event of ports or streams, by each command that the
-- command task takes, and by each answer that is sent.
pub record Account (services : Services) : Type 1 where
  pub Holds : List Event → ConnTask → Type 0
  pub quiet :
      {es es' : List Event} {t : ConnTask}
      → Quiet es es'
      → Grows es es'
      → Wrote es es'
      → Holds es t
      → Holds es' t
  pub taken :
      (c : Option FtlCommand) (st : ConnectionState) (env : Env services)
      → Holds env.events (receiving st)
      → Holds (on_command services c st env).0.events (on_command services c st env).1
  pub answered :
      (then_do : Then) (st : ConnectionState) (r : FrameCommand) (env : Env services)
      → Holds env.events (answering st r then_do)
      → Holds
          (after_answer services then_do true st env).0.events
          (after_answer services then_do true st env).1

module _ (services : Services) (framed : Framed services.World) (account : Account services) where
  abbrev Plain : Type 0
  Plain = Queued services framed

  abbrev Books : Plain → Type 0
  Books s = account.Holds s.env.events s.conn

  next-Books :
      (s : Plain) (n : Next)
      → Books s
      → Books (on_next services framed (queues FtlCommand) (queues FrameCommand) s n)
  next-Books s (command c) l = l
  next-Books s (failed e) l = l
  next-Books s finished l = l
  next-Books s panicked l = l

  written-Books :
      (s : Plain) (b : Bool)
      → Books s
      → Books (on_written services framed (queues FtlCommand) (queues FrameCommand) s b)
  written-Books s true l = l
  written-Books s false l = l

  instruct-Books :
      (s : Plain) (i : Option FrameCommand)
      → Books s
      → Books (instruct services framed (queues FtlCommand) (queues FrameCommand) s i)
  instruct-Books s i l =
      let q = handle_frame_command-Quiet services framed i s.frame s.env in
      let g = handle_frame_command-Growing services framed i s.frame s.env in
      let o = handle_frame_command-Wrote services framed i s.frame s.env in
      let (env', w) = handle_frame_command services framed i s.frame s.env in
      written-Books (record s { env = env'; frame = w.frame }) w.done (account.quiet q g o l)

  abbrev BooksOf : Option Plain → Plain → Type 0
  BooksOf o s = Books (or_stay services framed (queues FtlCommand) (queues FrameCommand) s o)

  handed-Books :
      (s : Plain) (r : Sent (Queue FtlCommand))
      → Books s
      → BooksOf (on_handed services framed (queues FtlCommand) (queues FrameCommand) s r) s
  handed-Books s (sent ch) l = l
  handed-Books s full l = l
  handed-Books s closed l = l

  instructions-Books :
      (s : Plain) (r : Received FrameCommand (Queue FrameCommand))
      → Books s
      → BooksOf (on_instructions services framed (queues FtlCommand) (queues FrameCommand) s r) s
  instructions-Books s (got a ch) l = instruct-Books (record s { to_frame = ch }) (some a) l
  instructions-Books s waiting l = l
  instructions-Books s ended l = instruct-Books s none l

  frame_from-Books :
      (s : Plain) (t : FrameTask)
      → Books s
      → BooksOf (frame_from services framed (queues FtlCommand) (queues FrameCommand) s t) s
  frame_from-Books s reading l =
      let (env', r) = call services (framed.next s.frame) s.env in
      next-Books (record s { env = env'; frame = r.frame }) r.item l
  frame_from-Books s (handing c) l = handed-Books s _ l
  frame_from-Books s instructed l = instructions-Books s _ l
  frame_from-Books s frame_done l = l

  frame-Books : (s : Plain) → Books s → Books (after services framed frame_task s)
  unfolding step_frame
  frame-Books s l = frame_from-Books s s.frames l

  goes_to-Books :
      (s : Plain) (t : ConnTask)
      → account.Holds s.env.events t
      → Books (goes_to services framed (queues FtlCommand) (queues FrameCommand) s t)
  goes_to-Books s (receiving st) l = l
  goes_to-Books s (answering st r k) l = l
  goes_to-Books s conn_done l = l

  taken-Books :
      (s : Plain) (c : Option FtlCommand) (st : ConnectionState)
      → account.Holds s.env.events (receiving st)
      → Books (takes services framed (queues FtlCommand) (queues FrameCommand) s c st)
  taken-Books s c st l =
      let (env', task) = on_command services c st s.env in
      goes_to-Books (record s { env = env' }) task (account.taken c st s.env l)

  answered-Books :
      (s : Plain) (then_do : Then) (st : ConnectionState) (r : FrameCommand)
      → account.Holds s.env.events (answering st r then_do)
      → Books (answers services framed (queues FtlCommand) (queues FrameCommand) s then_do true st)
  answered-Books s then_do st r l =
      let (env', task) = after_answer services then_do true st s.env in
      goes_to-Books (record s { env = env' }) task (account.answered then_do st r s.env l)

  abbrev ConnBooks : Plain → Type 0
  ConnBooks s = Books s → Books (after services framed conn_task s)

  -- The phase rules out the branches in which an answer could not be sent.
  conn-Books : (s : Plain) → Phase services framed s → ConnBooks s
  unfolding step_conn
  conn-Books s (asking env frame st e) = subst ConnBooks (sym e) (λ l. l)
  conn-Books s (giving env frame st c k e) = subst ConnBooks (sym e) (λ l. l)
  conn-Books s (given env frame st c k e) = subst ConnBooks (sym e) (
      taken-Books
        (at_ services framed env frame instructed (receiving st) (chan [] true true)
          (chan [] true true))
        (some c) st)
  conn-Books s (replying env frame st r then_do e) = subst ConnBooks (sym e) (
      answered-Books
        (at_ services framed env frame instructed (answering st r then_do) (chan [] true true)
          (chan (r ∷ []) true true))
        then_do st r)
  conn-Books s (replied env frame st r e) = subst ConnBooks (sym e) (λ l. l)
  conn-Books s (unanswered env frame st before st' c k t e) = subst ConnBooks (sym e) (λ l. l)
  conn-Books s (last_reply env frame r e) = subst ConnBooks (sym e) (λ l. l)
  conn-Books s (deserted env frame frames h e) = subst ConnBooks (sym e) (λ l. l)
  conn-Books s (abandoned env frame st e) = subst ConnBooks (sym e) (
      taken-Books
        (at_ services framed env frame frame_done (receiving st) (chan [] false true)
          (chan [] true false))
        none st)
  conn-Books s (over env frame e) = subst ConnBooks (sym e) (λ l. l)

  pub after-Books :
      (t : Task) (s : Plain)
      → Phase services framed s
      → Books s
      → Phase services framed (after services framed t s) × Books (after services framed t s)
  after-Books frame_task s p l = (frame-Phase services framed s p, frame-Books s l)
  after-Books conn_task s p l = (conn-Phase services framed s p, conn-Books s p l)

  pub run-Books :
      (ts : List Task) (s : Plain)
      → Phase services framed s
      → Books s
      → Books (run services framed (queues FtlCommand) (queues FrameCommand) ts s)
  unfolding run
  run-Books [] s p l = l
  run-Books (t ∷ ts) s p l =
      let (p', l') = after-Books t s p l in run-Books ts (after services framed t s) p' l'

  init-Books :
      (env : Env services) (frame : framed.Frame)
      → account.Holds env.events (receiving new)
      → Books (init services framed (queues FtlCommand) (queues FrameCommand) env frame)
  unfolding init
  init-Books env frame h = h

module _ (services : Services) (framed : Framed services.World) (commands : Mpsc FtlCommand)
    (replies : Mpsc FrameCommand) where
  -- What holds when a connection starts holds after any schedule.
  pub reached-Holds :
      (account : Account services) (ts : List Task) (env : Env services) (frame : framed.Frame)
      → account.Holds env.events (receiving new)
      → account.Holds
          (reached services framed commands replies ts env frame).env.events
          (reached services framed commands replies ts env frame).conn
  reached-Holds account ts env frame h =
      subst (λ (s : Queued services framed). account.Holds s.env.events s.conn)
        (sym (
          view-run services framed commands replies ts _
          ∙ ap (run services framed (queues FtlCommand) (queues FrameCommand) ts)
              (view-init services framed commands replies env frame)))
        (run-Books services framed account ts _ (init-Phase services framed env frame)
          (init-Books services framed account env frame h))

  -- One step of one task, over any channels.
  pub step-Holds :
      (account : Account services) (t : Task) (s : System services framed commands replies)
      → Phase services framed (view services framed commands replies s)
      → account.Holds s.env.events s.conn
      → let s' =
          or_stay services framed commands replies s (step services framed commands replies t s) in
        Phase services framed (view services framed commands replies s')
        × account.Holds s'.env.events s'.conn
  unfolding run
  step-Holds account t s p l =
      subst
        (λ (s : Queued services framed).
          Phase services framed s × account.Holds s.env.events s.conn)
        (sym (view-run services framed commands replies (t ∷ []) s))
        (after-Books services framed account t (view services framed commands replies s) p l)
