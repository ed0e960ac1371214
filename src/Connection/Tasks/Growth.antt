-- ===== src/Connection/Tasks/Growth.antt =====
-- ingest/src/connection/mod.rs: the reactions of the two tasks, and what each adds to the events.
use itgv.Base.{
  ℕ, sym, subst, ◌∙◌, Bool, true, false, Option, none, some, List, [], ◌∷◌, inl, inr, Bool-cases,
}
use itgv.Connection.Frame.Order.{
  write_in_order, handle_frame_command-write_in_order, handle_frame_command-none, send_item-events,
}
use itgv.Connection.Frame.{send_item, handle_frame_command}
use itgv.Connection.Handler.{FrameCommand, send, handle_command, handle_connect, handle_hmac}
use itgv.Connection.Remote.Growth.{
  Grows, Grows-refl, Grows-cons, Grows-trans, Growing, notify_stream_start-Growing,
  notify_stream_end-Growing, allocate_port-Growing, free_port-Growing, generate_hmac-Growing,
}
use itgv.Connection.Remote.{wrote}
use itgv.Connection.Services.{Services}
use itgv.Connection.Socket.{Framed}
use itgv.Connection.State.{ConnectionState}
use itgv.Connection.Tasks.{
  Then, continue, connected, give_up, notify_end, free_held, clean_up, on_dot, on_other, on_command,
  after_answer,
}
use itgv.FtlCodec.{FtlCommand, hmac, connect, ping, dot, attribute, disconnect}
use itgv.Std.HashMap.{get}
use itgv.Std.Text.{Text, lit}

module _ (services : Services) where
  connect-Growing :
      (key channel : Option Text) (st : ConnectionState)
      → Growing services (handle_connect services key channel st)
  unfolding handle_connect
  connect-Growing (some key) (some channel) st env = notify_stream_start-Growing services key env
  connect-Growing (some key) none st env = Grows-refl env.events
  connect-Growing none channel st env = Grows-refl env.events

  handle_command-Growing :
      (c : FtlCommand) (st : ConnectionState) → Growing services (handle_command services c st)
  unfolding handle_command handle_hmac
  handle_command-Growing hmac st env = generate_hmac-Growing services env
  handle_command-Growing (connect entries) st env =
      connect-Growing (get (lit "stream_key") entries) (get (lit "channel_id") entries) st env
  handle_command-Growing _ st env = Grows-refl env.events

  notify_end-Growing : (key : Option Text) → Growing services (notify_end services key)
  notify_end-Growing none env = Grows-refl env.events
  notify_end-Growing (some key) env = notify_stream_end-Growing services key env

  free_held-Growing : (port : Option ℕ) → Growing services (free_held services port)
  free_held-Growing none env = Grows-refl env.events
  free_held-Growing (some port) env = free_port-Growing services port env

  pub clean_up-Growing : (st : ConnectionState) → Growing services (clean_up services st)
  unfolding clean_up
  clean_up-Growing st env =
      Grows-trans (notify_end-Growing st.stream_key env) (free_held-Growing st.rtp_port _)

  dot-Growing :
      (st : ConnectionState) (port : Option ℕ) → Growing services (on_dot services st port)
  unfolding on_dot
  dot-Growing st (some p) env = Grows-refl env.events
  dot-Growing st none env = allocate_port-Growing services env

  other-Growing :
      (c : FtlCommand) (st : ConnectionState) → Growing services (on_other services c st)
  unfolding on_other
  other-Growing c st env = handle_command-Growing c st env

  pub on_command-Growing :
      (c : Option FtlCommand) (st : ConnectionState) → Growing services (on_command services c st)
  unfolding on_command
  on_command-Growing none st env = clean_up-Growing st env
  on_command-Growing (some disconnect) st env = clean_up-Growing st env
  on_command-Growing (some dot) st env = dot-Growing st st.rtp_port env
  on_command-Growing (some hmac) st env = other-Growing hmac st env
  on_command-Growing (some (connect entries)) st env = other-Growing (connect entries) st env
  on_command-Growing (some ping) st env = other-Growing ping st env
  on_command-Growing (some (attribute entries)) st env = other-Growing (attribute entries) st env

  pub after_answer-Growing :
      (then_do : Then) (b : Bool) (st : ConnectionState)
      → Growing services (after_answer services then_do b st)
  unfolding after_answer
  after_answer-Growing continue b st env = Grows-refl env.events
  after_answer-Growing connected true st env = Grows-cons _ (Grows-refl env.events)
  after_answer-Growing connected false st env = Grows-refl env.events
  after_answer-Growing give_up b st env = Grows-refl env.events

  module _ (framed : Framed services.World) where
    send_item-Growing :
        (item : Text) (frame : framed.Frame)
        → Growing services (send_item services framed item frame)
    send_item-Growing item frame env =
        elim (Bool-cases (send_item services framed item frame env).1.done) [
          | inl e ↦
              subst (Grows env.events)
                (sym (send_item-events services framed item frame env ∙ rw e))
                (Grows-cons (wrote item) (Grows-refl env.events))
          | inr e ↦
              subst (Grows env.events)
                (sym (send_item-events services framed item frame env ∙ rw e))
                (Grows-refl env.events)
        ]

    write_in_order-Growing :
        (items : List Text) (frame : framed.Frame)
        → Growing services (write_in_order services framed items frame)
    unfolding write_in_order
    write_in_order-Growing [] frame env = Grows-refl env.events
    write_in_order-Growing (item ∷ items) frame env =
        let (env', w) = send_item services framed item frame env in
        let first = send_item-Growing item frame env in
        elim (Bool-cases w.done) [
          | inl e ↦
              rw (e, write_in_order) (Grows-trans first (write_in_order-Growing items w.frame env'))
          | inr e ↦ rw (e, write_in_order) first
        ]

    pub handle_frame_command-Growing :
        (c : Option FrameCommand) (frame : framed.Frame)
        → Growing services (handle_frame_command services framed c frame)
    handle_frame_command-Growing (some (send pieces)) frame env =
        rw (handle_frame_command-write_in_order services framed pieces frame env)
          (write_in_order-Growing pieces frame env)
    handle_frame_command-Growing none frame env =
        rw (handle_frame_command-none services framed frame env) (Grows-refl env.events)
