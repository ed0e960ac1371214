-- ===== src/Connection/System/Progress.antt =====
-- ingest/src/connection/mod.rs, the command task of `Connection::init`: which commands it answers.
use itgv.Base.{ℕ, ◌≡◌, ◌≢◌, Option, none, some, arith}
use itgv.Connection.Handler.Answers.{IsBadFlag, set_attribute-none_iff}
use itgv.Connection.Handler.{handle_command, handle_connect}
use itgv.Connection.Remote.{Env}
use itgv.Connection.Services.{Services}
use itgv.Connection.State.{ConnectionState}
use itgv.Connection.Tasks.{receiving, on_command, on_dot}
use itgv.FtlCodec.Commands.{IsComplete}
use itgv.FtlCodec.{FtlCommand, hmac, connect, ping, dot, attribute, disconnect}
use itgv.Std.HashMap.{HashMap, get}
use itgv.Std.Text.{Text, lit}

-- An attribute command with a flag that is neither "true" nor "false".
abbrev pub IsRefused : FtlCommand → Type 0
IsRefused (attribute entries) =
    (key value : Text) × (get (lit "key") entries ≡ some key)
    × (get (lit "value") entries ≡ some value)
    × IsBadFlag key value
IsRefused hmac = ⊥
IsRefused (connect _) = ⊥
IsRefused ping = ⊥
IsRefused dot = ⊥
IsRefused disconnect = ⊥

module _ (services : Services) where
  dot_answers :
      (st st' : ConnectionState) (port : Option ℕ) (env : Env services)
      → (on_dot services st port env).1 ≢ receiving st'
  unfolding on_dot
  dot_answers st st' (some p) env h = cc
  dot_answers st st' none env h = ground arith

  connect_answers :
      (entries : HashMap) (st st' : ConnectionState) (env : Env services)
      → IsComplete (connect entries)
      → (on_command services (some (connect entries)) st env).1 ≢ receiving st'
  unfolding on_command handle_command
  connect_answers entries st st' env ((key, k), (channel, c)) = rw (k, c, handle_connect) (λ h. cc)

  attribute-IsRefused :
      (entries : HashMap) (st st' : ConnectionState) (env : Env services)
      → IsComplete (attribute entries)
      → (on_command services (some (attribute entries)) st env).1 ≡ receiving st'
      → IsRefused (attribute entries)
  unfolding on_command handle_command
  attribute-IsRefused entries st st' env ((key, k), (value, v)) h =
      (key, value, k, v, (set_attribute-none_iff key value st).0 (ground (arith, k, v)))

  -- A command as the decoder makes them that sends the command task back to waiting with no answer
  -- is an attribute "Video" or "Audio" with a value other than "true" and "false".
  pub on_command-IsRefused :
      (c : FtlCommand) (st st' : ConnectionState) (env : Env services)
      → IsComplete c
      → (on_command services (some c) st env).1 ≡ receiving st'
      → IsRefused c
  unfolding on_command handle_command
  on_command-IsRefused hmac st st' env k h = cc
  on_command-IsRefused (connect entries) st st' env k h = connect_answers entries st st' env k h
  on_command-IsRefused ping st st' env k h = cc
  on_command-IsRefused dot st st' env k h = dot_answers st st' st.rtp_port env h
  on_command-IsRefused (attribute entries) st st' env k h =
      attribute-IsRefused entries st st' env k h
  on_command-IsRefused disconnect st st' env k h = cc
