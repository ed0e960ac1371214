-- ===== src/Connection/System/Sequential/Growth.antt =====
-- ingest/src/connection/mod.rs, `Connection::init`: what the exchanges add to the events.
use itgv.Base.{
  ℕ, zero, suc, ◌+◌, ◌≡◌, refl, sym, ap, subst, ◌∙◌, Bool, true, false, some, List, arith,
}
use itgv.Connection.Frame.{handle_frame_command}
use itgv.Connection.Handler.{FrameCommand}
use itgv.Connection.Remote.Growth.{Grows, Grows-refl, Grows-trans}
use itgv.Connection.Remote.{Env, Event, call}
use itgv.Connection.Services.{Services}
use itgv.Connection.Socket.{Next, command, failed, finished, panicked, Framed}
use itgv.Connection.State.{ConnectionState}
use itgv.Connection.System.Sequential.{
  Stage, serving, hanging, cut, leaving, over, written, write, finish, handle, closing, exchange,
  exchanges,
}
use itgv.Connection.Tasks.Growth.{
  clean_up-Growing, on_command-Growing, after_answer-Growing, handle_frame_command-Growing,
}
use itgv.Connection.Tasks.{
  Then, continue, connected, give_up, ConnTask, receiving, answering, conn_done, on_command,
  after_answer,
}

module _ (services : Services) (framed : Framed services.World) where
  abbrev pub events_of : Stage services framed → List Event
  events_of (serving env frame st) = env.events
  events_of (hanging env frame st) = env.events
  events_of (cut env frame st) = env.events
  events_of (leaving env frame) = env.events
  events_of (over env frame) = env.events

  written-events :
      (env : Env services) (frame : framed.Frame) (st : ConnectionState) (then_do : Then) (b : Bool)
      → events_of (written services framed env frame st then_do b) ≡ env.events
  written-events env frame st continue true = refl
  written-events env frame st connected true = refl
  written-events env frame st give_up true = refl
  written-events env frame st continue false = refl
  written-events env frame st connected false = refl
  written-events env frame st give_up false = refl

  write-Grows :
      (env : Env services) (frame : framed.Frame) (st : ConnectionState) (r : FrameCommand)
      (then_do : Then)
      → Grows env.events (events_of (write services framed env frame st r then_do))
  write-Grows env frame st r then_do =
      let (env', w) = handle_frame_command services framed (some r) frame env in
      subst (Grows env.events) (sym (written-events env' w.frame st then_do w.done))
        (handle_frame_command-Growing services framed (some r) frame env)

  finish-Grows :
      (env : Env services) (frame : framed.Frame) (task : ConnTask)
      → Grows env.events (events_of (finish services framed env frame task))
  finish-Grows env frame (receiving st) = Grows-refl env.events
  finish-Grows env frame (answering st r then_do) =
      Grows-trans (after_answer-Growing services then_do true st env)
        (write-Grows (after_answer services then_do true st env).0 frame st r then_do)
  finish-Grows env frame conn_done = Grows-refl env.events

  closing-Grows :
      (env : Env services) (frame : framed.Frame) (st : ConnectionState)
      → Grows env.events (events_of (closing services framed env frame st))
  closing-Grows env frame st = clean_up-Growing services st env

  handle-Grows :
      (env : Env services) (frame : framed.Frame) (st : ConnectionState) (n : Next)
      → Grows env.events (events_of (handle services framed env frame st n))
  handle-Grows env frame st (command c) =
      Grows-trans (on_command-Growing services (some c) st env) (
        finish-Grows (on_command services (some c) st env).0 frame
          (on_command services (some c) st env).1)
  handle-Grows env frame st (failed e) = closing-Grows env frame st
  handle-Grows env frame st finished = closing-Grows env frame st
  handle-Grows env frame st panicked = closing-Grows env frame st

  exchange-Grows :
      (x : Stage services framed) → Grows (events_of x) (events_of (exchange services framed x))
  unfolding exchange
  exchange-Grows (serving env frame st) =
      let (env', r) = call services (framed.next frame) env in handle-Grows env' r.frame st r.item
  exchange-Grows (hanging env frame st) = Grows-refl env.events
  exchange-Grows (cut env frame st) = closing-Grows env frame st
  exchange-Grows (leaving env frame) = Grows-refl env.events
  exchange-Grows (over env frame) = Grows-refl env.events

  pub exchanges-Grows :
      (n : ℕ) (x : Stage services framed)
      → Grows (events_of x) (events_of (exchanges services framed n x))
  unfolding exchanges
  exchanges-Grows zero x = Grows-refl (events_of x)
  exchanges-Grows (suc n) x =
      Grows-trans (exchanges-Grows n x) (exchange-Grows (exchanges services framed n x))

  recount :
      (m n : ℕ) (x : Stage services framed)
      → m ≡ n
      → exchanges services framed m x ≡ exchanges services framed n x
  recount m n x e = ap (λ k. exchanges services framed k x) e

  -- The exchanges in two parts.
  exchanges_add :
      (m n : ℕ) (x : Stage services framed)
      → exchanges services framed m (exchanges services framed n x)
        ≡ exchanges services framed (m + n) x
  unfolding exchanges
  exchanges_add zero n x = recount n (0 + n) x (omega arith)
  exchanges_add (suc m) n x =
      ap (exchange services framed) (exchanges_add m n x)
      ∙ recount (suc (m + n)) (suc m + n) x (omega arith)

  pub exchanges_swap :
      (m n : ℕ) (x : Stage services framed)
      → exchanges services framed m (exchanges services framed n x)
        ≡ exchanges services framed n (exchanges services framed m x)
  exchanges_swap m n x =
      exchanges_add m n x ∙ recount (m + n) (n + m) x (omega arith) ∙ sym (exchanges_add n m x)
