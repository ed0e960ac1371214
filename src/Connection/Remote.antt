-- ===== src/Connection/Remote.antt =====
-- ingest/src/connection/mod.rs: `notify_stream_start`, `notify_stream_end`, `allocate_port`,
-- `free_port` and `generate_hmac`.
pub mod Results
pub mod Growth
pub mod Log
pub mod Requests
use itgv.Base.{ℕ, zero, suc, ◌%◌, ◌^◌, Option, none, some, List, [], ◌∷◌, ◌++◌}
use mathlib.Core.Option
use itgv.Connection.Services.{Services}
use itgv.Connection.State.{LogLine}
use itgv.Std.Decimal.{display}
use itgv.Std.Io.{Io, pure, ◌>>=◌, ◌>>◌}
use itgv.Std.Result.{Result, ok, err}
use itgv.Std.Text.{Text, lit}

-- What happens on the outside, as far as the theorems speak of it: the requests with their
-- arguments, the start of each notification, the ports given out and given back, the pieces written
-- to the client, and the lines of `print`.
pub data Event : Type 0 where
  started : Text → Event
  ended : Text → Event
  opened : Text → Event
  sent_text : Text → Event
  posted : Text → Event
  deleted : Text → Event
  allocated : ℕ → Event
  freed : ℕ → Event
  wrote : Text → Event
  printed : List LogLine → Event

module _ (services : Services) where
  open services use {
    World, Error, env_var, Response, Value, post, delete, json, get, as_u64, json_object, WebSocket,
    connect_async, send_text, read_next, sample, hex_encode,
  }

  -- The world, and the events so far, the latest first.
  pub record Env : Type 0 where
    pub world : World
    pub events : List Event

  abbrev pub Action : Type 0 → Type 0
  Action A = Io Env A

  abbrev pub emit : Event → Action (Unit {0})
  emit e env = (record env { events = e ∷ env.events }, tt)

  abbrev pub call : {A : Type 0} → Io World A → Action A
  call m env = (record env { world = (m env.world).0 }, (m env.world).1)

  abbrev pub auth_url : Text
  auth_url = lit "wss://meow.com/stream/auth"

  -- `connect_async(…).await?` and `write.send(…).await?`
  open_auth : Action (Result Error WebSocket)
  open_auth = do emit (opened auth_url); call (connect_async auth_url)

  send_message : WebSocket → Text → Action (Result Error (Unit {0}))
  send_message socket text = do emit (sent_text text); call (send_text socket text)

  abbrev finish_start : WebSocket → Result Error (Unit {0}) → Action (Result Error (Unit {0}))
  finish_start socket (ok _) = do call (read_next socket); pure (ok tt)
  finish_start socket (err e) = pure (err e)

  abbrev start_on : Text → Result Error WebSocket → Action (Result Error (Unit {0}))
  start_on stream_key (ok socket) = do
    sent ← send_message socket (json_object ((lit "stream_key", stream_key) ∷ []))
    finish_start socket sent
  start_on stream_key (err e) = pure (err e)

  unfoldable pub notify_stream_start : Text → Action (Result Error (Unit {0}))
  unfolding open_auth send_message
  notify_stream_start stream_key = do
    emit (started stream_key)
    socket ← open_auth
    start_on stream_key socket

  abbrev end_on : Text → Result Error WebSocket → Action (Result Error (Unit {0}))
  end_on stream_key (ok socket) =
      send_message socket
        (json_object ((lit "stream_key", stream_key) ∷ (lit "status", lit "ended") ∷ []))
  end_on stream_key (err e) = pure (err e)

  unfoldable pub notify_stream_end : Text → Action (Result Error (Unit {0}))
  unfolding open_auth send_message
  notify_stream_end stream_key = do
    emit (ended stream_key)
    socket ← open_auth
    end_on stream_key socket

  abbrev pub default_base : Text
  default_base = lit "http://localhost:8080"

  abbrev pub base_url : World → Text
  base_url w = elim (env_var (lit "WEBRTC_SERVER_URL") w) [ some base ↦ base | none ↦ default_base ]

  abbrev base : Action Text
  base env = (env, base_url env.world)

  -- `p as u16` keeps the low sixteen bits.
  abbrev pub as_u16 : ℕ → ℕ
  as_u16 p = p % 2 ^ 16

  abbrev pub port_of : Value → Option ℕ
  port_of v = elim (get (lit "port") v) [ none ↦ none | some p ↦ Option.map as_u16 (as_u64 p) ]

  abbrev of_body : Result Error Value → Option ℕ
  of_body (ok v) = port_of v
  of_body (err _) = none

  abbrev read_port : Result Error Response → Action (Option ℕ)
  read_port (ok resp) = do v ← call (json resp); pure (of_body v)
  read_port (err _) = pure none

  abbrev note_port : Option ℕ → Action (Option ℕ)
  note_port (some p) = do emit (allocated p); pure (some p)
  note_port none = pure none

  unfoldable pub allocate_port : Action (Option ℕ)
  allocate_port = do
    url ← base
    emit (posted (url ++ lit "/stream"))
    resp ← call (post (url ++ lit "/stream"))
    port ← read_port resp
    note_port port

  unfoldable pub free_port : ℕ → Action (Unit {0})
  free_port port = do
    emit (freed port)
    url ← base
    let target = url ++ (lit "/stream?port=" ++ display port)
    emit (deleted target)
    call (delete target)
    pure tt

  -- `rng.sample(dist)` as many times as the loop runs, pushed in turn
  unfoldable pub samples : ℕ → Action (List ℕ)
  samples zero = pure []
  samples (suc n) = do b ← call (sample 0x00 0xff); bs ← samples n; pure (b ∷ bs)

  unfoldable pub generate_hmac : Action Text
  unfolding samples
  generate_hmac = do bytes ← samples 128; pure (hex_encode bytes)
