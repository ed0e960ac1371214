-- ===== src/Connection/Tasks/Log.antt =====
-- ingest/src/connection/mod.rs: the reactions of the command task, and the requests that stand behind
-- each.
use itgv.Base.{ℕ, Bool, true, false, Option, none, some, List}
use itgv.Connection.Handler.{handle_command, handle_connect, handle_hmac}
use itgv.Connection.Remote.Log.{
  printing, Logging, notify_stream_start-Log, notify_stream_end-Log, allocate_port-Log,
  free_port-Log, generate_hmac-Log,
}
use itgv.Connection.Remote.{Event}
use itgv.Connection.Services.{Services}
use itgv.Connection.State.{ConnectionState}
use itgv.Connection.Tasks.{
  Then, continue, connected, give_up, notify_end, free_held, clean_up, on_dot, on_other, on_command,
  after_answer,
}
use itgv.FtlCodec.{FtlCommand, hmac, connect, ping, dot, attribute, disconnect}
use itgv.Std.HashMap.{get}
use itgv.Std.Text.{Text, lit}

module _ (services : Services) (base : List Event) where
  connect-Log :
      (key channel : Option Text) (st : ConnectionState)
      → Logging services base (handle_connect services key channel st)
  unfolding handle_connect
  connect-Log (some key) (some channel) st env l = notify_stream_start-Log services base key env l
  connect-Log (some key) none st env l = l
  connect-Log none channel st env l = l

  handle_command-Log :
      (c : FtlCommand) (st : ConnectionState) → Logging services base (handle_command services c st)
  unfolding handle_command handle_hmac
  handle_command-Log hmac st env l = generate_hmac-Log services base env l
  handle_command-Log (connect entries) st env l =
      connect-Log (get (lit "stream_key") entries) (get (lit "channel_id") entries) st env l
  handle_command-Log _ st env l = l

  notify_end-Log : (key : Option Text) → Logging services base (notify_end services key)
  notify_end-Log none env l = l
  notify_end-Log (some key) env l = notify_stream_end-Log services base key env l

  free_held-Log : (port : Option ℕ) → Logging services base (free_held services port)
  free_held-Log none env l = l
  free_held-Log (some port) env l = free_port-Log services base port env l

  clean_up-Log : (st : ConnectionState) → Logging services base (clean_up services st)
  unfolding clean_up
  clean_up-Log st env l = free_held-Log st.rtp_port _ (notify_end-Log st.stream_key env l)

  dot-Log :
      (st : ConnectionState) (port : Option ℕ) → Logging services base (on_dot services st port)
  unfolding on_dot
  dot-Log st (some p) env l = l
  dot-Log st none env l = allocate_port-Log services base env l

  other-Log :
      (c : FtlCommand) (st : ConnectionState) → Logging services base (on_other services c st)
  unfolding on_other
  other-Log c st env l = handle_command-Log c st env l

  pub on_command-Log :
      (c : Option FtlCommand) (st : ConnectionState)
      → Logging services base (on_command services c st)
  unfolding on_command
  on_command-Log none st env l = clean_up-Log st env l
  on_command-Log (some disconnect) st env l = clean_up-Log st env l
  on_command-Log (some dot) st env l = dot-Log st st.rtp_port env l
  on_command-Log (some hmac) st env l = other-Log hmac st env l
  on_command-Log (some (connect entries)) st env l = other-Log (connect entries) st env l
  on_command-Log (some ping) st env l = other-Log ping st env l
  on_command-Log (some (attribute entries)) st env l = other-Log (attribute entries) st env l

  pub after_answer-Log :
      (then_do : Then) (b : Bool) (st : ConnectionState)
      → Logging services base (after_answer services then_do b st)
  unfolding after_answer
  after_answer-Log continue b st env l = l
  after_answer-Log connected true st env l = printing _ l
  after_answer-Log connected false st env l = l
  after_answer-Log give_up b st env l = l
