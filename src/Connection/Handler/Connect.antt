-- ===== src/Connection/Handler/Connect.antt =====
-- From a CONNECT line on the wire to the state, the answer and the announcement: `decode` in
-- ingest/src/ftl_codec.rs and the connect branch of `handle_command` in
-- ingest/src/connection/mod.rs.
use itgv.Base.{ℕ, ◌≡◌, refl, false, some, [], ◌∷◌, ◌++◌}
use itgv.Connection.Handler.{answers, handle_command, handle_connect}
use itgv.Connection.Ports.{started_keys, ended_keys, notify_stream_start-events}
use itgv.Connection.Remote.{Env}
use itgv.Connection.Services.{Services}
use itgv.Connection.State.{ConnectionState}
use itgv.FtlCodec.Wire.{connect_line, decode-connect_line}
use itgv.FtlCodec.{connect, FtlCodec, delimiter, reset, decode}
use itgv.Std.HashMap.{HashMap, get}
use itgv.Std.Outcome.{ok}
use itgv.Std.Text.{Text, lit, contains, Avoids}
use itgv.Std.Utf8.RoundTrip.{AllScalar}
use itgv.Std.Utf8.{Bytes, as_bytes}

module _ (services : Services) where
  -- The key is kept and announced once, nothing is ended, and the answer is "200\n".
  pub record Accepts (key : Text) (entries : HashMap) (st : ConnectionState) (env : Env services)
      : Type 0 where
    pub handled :
        (handle_command services (connect entries) st env).1
        ≡ answers (record st { stream_key = some key }) (lit "200\n" ∷ [])
    pub announced :
        started_keys (handle_command services (connect entries) st env).0.events
        ≡ key ∷ started_keys env.events
    pub none_ended :
        ended_keys (handle_command services (connect entries) st env).0.events
        ≡ ended_keys env.events

  entries-Accepts :
      (key channel : Text) (entries : HashMap) (st : ConnectionState) (env : Env services)
      → get (lit "stream_key") entries ≡ some key
      → get (lit "channel_id") entries ≡ some channel
      → Accepts key entries st env
  unfolding handle_command handle_connect
  entries-Accepts key channel entries st env k c =
      let q = notify_stream_start-events services key env in
      record {
        handled = rw (k, c, handle_connect) refl;
        announced = rw (k, c, handle_connect) q.same_started;
        none_ended = rw (k, c, handle_connect) q.same_ended;
      }

  -- A CONNECT line of scalar values with no carriage return, with neither `HMAC` nor `DISCONNECT`
  -- and no space in channel and key, is accepted whatever the services answer, the one that is
  -- asked about the key included: the key without its sigil is kept in the state and announced
  -- once, the answer is "200\n", and no earlier stream of the connection is ended.
  pub connect_line-Accepts :
      (self : FtlCodec) (channel key : Text) (sigil : ℕ) (rest : Bytes) (st : ConnectionState)
      (env : Env services)
      → AllScalar (connect_line channel sigil key)
      → Avoids b'\r' (connect_line channel sigil key)
      → Avoids b' ' channel
      → Avoids b' ' (sigil ∷ key)
      → contains (lit "HMAC") (connect_line channel sigil key) ≡ false
      → contains (lit "DISCONNECT") (connect_line channel sigil key) ≡ false
      → (entries : HashMap) × (decode self
            (as_bytes (connect_line channel sigil key) ++ (delimiter ++ rest))
          ≡ record { codec = reset self; buf = rest; result = ok (some (connect entries)) })
        × Accepts key entries st env
  connect_line-Accepts self channel key sigil rest st env u r h k nh nd =
      let (entries, e, c, s) = decode-connect_line self channel key sigil rest u r h k nh nd in
      (entries, e, entries-Accepts key channel entries st env s c)
