-- ===== src/Connection/Tasks/CleanUp.antt =====
-- ingest/src/connection/mod.rs, the command task of `init`: the clean-up at both of its ends.
use itgv.Base.{ℕ, ◌≡◌, Option, none, some, List, [], ◌∷◌, ◌++◌, arith}
use itgv.Connection.Ports.{
  allocated_ports, freed_ports, started_keys, ended_keys, Quiet, Quiet-refl,
  notify_stream_end-events, free_port-events,
}
use itgv.Connection.Remote.{Env, Event, ended, freed}
use itgv.Connection.Services.{Services}
use itgv.Connection.State.{ConnectionState}
use itgv.Connection.Tasks.{notify_end, free_held, clean_up}
use itgv.Std.Text.{Text}

abbrev pub listed {ℓ} : {A : Type ℓ} → Option A → List A
listed none = []
listed (some a) = a ∷ []

module _ (services : Services) where
  abbrev ended_of : Option Text → List Event → List Event
  ended_of none es = es
  ended_of (some k) es = ended k ∷ es

  abbrev freed_of : Option ℕ → List Event → List Event
  freed_of none es = es
  freed_of (some p) es = freed p ∷ es

  notify_end-events :
      (key : Option Text) (env : Env services)
      → Quiet (ended_of key env.events) (notify_end services key env).0.events
  notify_end-events none env = Quiet-refl env.events
  notify_end-events (some key) env = notify_stream_end-events services key env

  free_held-events :
      (port : Option ℕ) (env : Env services)
      → Quiet (freed_of port env.events) (free_held services port env).0.events
  free_held-events none env = Quiet-refl env.events
  free_held-events (some port) env = free_port-events services port env

  -- A clean-up of `key` and `port`: one end of the stream if there is a key, one port given back if
  -- there is one, and nothing started or given out.
  pub record CleansUp (key : Option Text) (port : Option ℕ) (es es' : List Event) : Type 0 where
    pub ends : ended_keys es' ≡ listed key ++ ended_keys es
    pub frees : freed_ports es' ≡ listed port ++ freed_ports es
    pub same_started : started_keys es' ≡ started_keys es
    pub same_allocated : allocated_ports es' ≡ allocated_ports es

  both-CleansUp :
      (key : Option Text) (port : Option ℕ) (env : Env services)
      → CleansUp key port env.events
          (free_held services port (notify_end services key env).0).0.events
  both-CleansUp none port env = of_free port (free_held-events port env)
    where
      of_free :
          (port : Option ℕ) {es' : List Event}
          → Quiet (freed_of port env.events) es'
          → CleansUp none port env.events es'
      of_free none q = ground arith
      of_free (some p) q = ground arith
  both-CleansUp (some key) port env =
      of_free port (notify_end-events (some key) env)
        (free_held-events port (notify_end services (some key) env).0)
    where
      of_free :
          (port : Option ℕ) {mid es' : List Event}
          → Quiet (ended key ∷ env.events) mid
          → Quiet (freed_of port mid) es'
          → CleansUp (some key) port env.events es'
      of_free none p q = ground arith
      of_free (some port) p q = ground arith

  pub clean_up-CleansUp :
      (st : ConnectionState) (env : Env services)
      → CleansUp st.stream_key st.rtp_port env.events (clean_up services st env).0.events
  unfolding clean_up
  clean_up-CleansUp st env = both-CleansUp st.stream_key st.rtp_port env
