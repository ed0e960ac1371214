-- ===== src/Connection/Remote/Requests.antt =====
-- ingest/src/connection/mod.rs: the calls that `notify_stream_end` and `free_port` make.
use itgv.Base.{ℕ, ◌≡◌, refl, ◌∷◌, ◌++◌}
use itgv.Connection.Remote.Log.{start_message, end_message}
use itgv.Connection.Remote.{
  Env, opened, sent_text, deleted, ended, freed, base_url, notify_stream_end, free_port, open_auth,
  started, send_message, end_on, auth_url,
}
use itgv.Connection.Services.{Services}
use itgv.Std.Decimal.{display}
use itgv.Std.Result.{Result, ok, err}
use itgv.Std.Text.{Text, lit}

module _ (services : Services) where
  -- The end of the stream `key` is told: the service is called, and if it answers it is sent the
  -- message. `env'` is what these calls leave.
  pub data EndTold (key : Text) (env env' : Env services) : Type 0 where
    unreachable :
        (e : services.Error)
        → (services.connect_async (lit "wss://meow.com/stream/auth") env.world).1 ≡ err e
        → env' ≡ record {
          world = (services.connect_async (lit "wss://meow.com/stream/auth") env.world).0;
          events = opened (lit "wss://meow.com/stream/auth") ∷ ended key ∷ env.events;
        }
        → EndTold key env env'
    told :
        (socket : services.WebSocket)
        → (services.connect_async (lit "wss://meow.com/stream/auth") env.world).1 ≡ ok socket
        → env' ≡ record {
          world =
              (services.send_text socket
                (end_message services key)
                (services.connect_async (lit "wss://meow.com/stream/auth") env.world).0).0;
          events =
              sent_text (end_message services key)
              ∷ opened (lit "wss://meow.com/stream/auth")
              ∷ ended key
              ∷ env.events;
        }
        → EndTold key env env'

  -- The port is named in a DELETE to the server that the environment names.
  pub record GivenBack (port : ℕ) (env env' : Env services) : Type 0 where
    pub url : Text
    pub is_url : url ≡ base_url services env.world ++ (lit "/stream?port=" ++ display port)
    pub calls : env' ≡ record {
      world = (services.delete url env.world).0;
      events = deleted url ∷ freed port ∷ env.events;
    }

  end_on-EndTold :
      (key : Text) (env : Env services) (r : Result services.Error services.WebSocket)
      → (services.connect_async (auth_url services) env.world).1 ≡ r
      → EndTold key env
          (end_on services key r (record {
            world = (services.connect_async (auth_url services) env.world).0;
            events = opened (auth_url services) ∷ ended key ∷ env.events;
          })).0
  unfolding send_message
  end_on-EndTold key env (ok socket) e = told socket e refl
  end_on-EndTold key env (err x) e = unreachable x e refl

  pub notify_stream_end-EndTold :
      (key : Text) (env : Env services) → EndTold key env (notify_stream_end services key env).0
  unfolding notify_stream_end open_auth
  notify_stream_end-EndTold key env = end_on-EndTold key env _ refl

  pub free_port-GivenBack :
      (port : ℕ) (env : Env services) → GivenBack port env (free_port services port env).0
  unfolding free_port
  free_port-GivenBack port env = record { url = _; is_url = refl; calls = refl }

  -- The calls of an announcement of `key`, what they leave, and how it ended.
  pub data Announced (key : Text) (env env' : Env services) (r : Result services.Error (Unit {0}))
      : Type 0 where
    unreachable :
        (e : services.Error)
        → (services.connect_async (lit "wss://meow.com/stream/auth") env.world).1 ≡ err e
        → env'.world ≡ (services.connect_async (lit "wss://meow.com/stream/auth") env.world).0
        → env'.events ≡ opened (lit "wss://meow.com/stream/auth") ∷ started key ∷ env.events
        → r ≡ err e
        → Announced key env env' r
    not_sent :
        (socket : services.WebSocket) (w : services.World) (e : services.Error)
        → services.connect_async (lit "wss://meow.com/stream/auth") env.world ≡ (w, ok socket)
        → (services.send_text socket (start_message services key) w).1 ≡ err e
        → env'.world ≡ (services.send_text socket (start_message services key) w).0
        → env'.events
          ≡ sent_text (start_message services key)
            ∷ opened (lit "wss://meow.com/stream/auth")
            ∷ started key
            ∷ env.events
        → r ≡ err e
        → Announced key env env' r
    answered :
        (socket : services.WebSocket) (w w' : services.World)
        → services.connect_async (lit "wss://meow.com/stream/auth") env.world ≡ (w, ok socket)
        → services.send_text socket (start_message services key) w ≡ (w', ok tt)
        → env'.world ≡ (services.read_next socket w').0
        → env'.events
          ≡ sent_text (start_message services key)
            ∷ opened (lit "wss://meow.com/stream/auth")
            ∷ started key
            ∷ env.events
        → r ≡ ok tt
        → Announced key env env' r
