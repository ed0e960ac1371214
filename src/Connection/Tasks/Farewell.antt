-- ===== src/Connection/Tasks/Farewell.antt =====
-- ingest/src/connection/mod.rs, the command task of `init`: the requests that the clean-up makes, and
-- in which order.
use itgv.Base.{ℕ, ◌≡◌, Option, none, some}
use itgv.Connection.Remote.{Env}
use itgv.Connection.Remote.Requests.{EndTold, GivenBack}
use itgv.Connection.Services.{Services}
use itgv.Std.Text.{Text}

module _ (services : Services) where
  abbrev pub EndsStream : Option Text → Env services → Env services → Type 0
  EndsStream none env env' = env' ≡ env
  EndsStream (some key) env env' = EndTold services key env env'

  abbrev pub GivesBack : Option ℕ → Env services → Env services → Type 0
  GivesBack none env env' = env' ≡ env
  GivesBack (some port) env env' = GivenBack services port env env'

  -- First the one, then the other.
  pub record Leaves (key : Option Text) (port : Option ℕ) (env env' : Env services) : Type 0 where
    pub between : Env services
    pub first : EndsStream key env between
    pub second : GivesBack port between env'
