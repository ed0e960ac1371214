-- ===== src/Connection/Ports.antt =====
-- ingest/src/connection/mod.rs: the ports given out and given back, and the streams announced and
-- ended, by each piece of the command task.
use itgv.Base.{
  ℕ, zero, suc, ◌≡◌, refl, ◌∙◌, Option, none, some, List, [], ◌∷◌, arith, inl, inr, Option-cases,
}
use itgv.Connection.Frame.Order.{
  write_in_order, handle_frame_command-write_in_order, handle_frame_command-none,
}
use itgv.Connection.Frame.{send_item, handle_frame_command}
use itgv.Connection.Handler.{
  FrameCommand, send, set_attribute, handle_attribute, handle_command, handle_connect,
}
use itgv.Connection.Remote.{
  Env, Event, started, ended, allocated, freed, notify_stream_start, notify_stream_end,
  allocate_port, free_port, samples, generate_hmac,
}
use itgv.Connection.Services.{Services}
use itgv.Connection.Socket.{Framed}
use itgv.Connection.State.{ConnectionState}
use itgv.FtlCodec.{FtlCommand, hmac, connect, attribute}
use itgv.Std.HashMap.{get}
use itgv.Std.Text.{Text, lit}

-- The ports that `allocate_port` returned, the latest first.
abbrev pub allocated_ports : List Event → List ℕ
allocated_ports [] = []
allocated_ports (allocated p ∷ es) = p ∷ allocated_ports es
allocated_ports (_ ∷ es) = allocated_ports es

-- The ports that `free_port` was called with.
abbrev pub freed_ports : List Event → List ℕ
freed_ports [] = []
freed_ports (freed p ∷ es) = p ∷ freed_ports es
freed_ports (_ ∷ es) = freed_ports es

-- The keys whose stream `notify_stream_start` and `notify_stream_end` were called with.
abbrev pub started_keys : List Event → List Text
started_keys [] = []
started_keys (started k ∷ es) = k ∷ started_keys es
started_keys (_ ∷ es) = started_keys es

abbrev pub ended_keys : List Event → List Text
ended_keys [] = []
ended_keys (ended k ∷ es) = k ∷ ended_keys es
ended_keys (_ ∷ es) = ended_keys es

-- Later events that say nothing of ports or streams.
pub record Quiet (es es' : List Event) : Type 0 where
  pub same_allocated : allocated_ports es' ≡ allocated_ports es
  pub same_freed : freed_ports es' ≡ freed_ports es
  pub same_started : started_keys es' ≡ started_keys es
  pub same_ended : ended_keys es' ≡ ended_keys es

pub Quiet-refl : (es : List Event) → Quiet es es
Quiet-refl es = record {
  same_allocated = refl;
  same_freed = refl;
  same_started = refl;
  same_ended = refl;
}

pub Quiet-trans : {a b c : List Event} → Quiet a b → Quiet b c → Quiet a c
Quiet-trans p q = record {
  same_allocated = q.same_allocated ∙ p.same_allocated;
  same_freed = q.same_freed ∙ p.same_freed;
  same_started = q.same_started ∙ p.same_started;
  same_ended = q.same_ended ∙ p.same_ended;
}

module _ (services : Services) where
  samples-Quiet : (n : ℕ) (env : Env services) → Quiet env.events (samples services n env).0.events
  unfolding samples
  samples-Quiet zero env = Quiet-refl env.events
  samples-Quiet (suc n) env =
      samples-Quiet n (record env { world = (services.sample 0x00 0xff env.world).0 })

  pub generate_hmac-Quiet :
      (env : Env services) → Quiet env.events (generate_hmac services env).0.events
  unfolding generate_hmac
  generate_hmac-Quiet env = samples-Quiet 128 env

  -- A notification counts once, and touches nothing else.
  pub notify_stream_start-events :
      (key : Text) (env : Env services)
      → Quiet (started key ∷ env.events) (notify_stream_start services key env).0.events
  unfolding notify_stream_start
  notify_stream_start-events key env = ground arith

  pub notify_stream_end-events :
      (key : Text) (env : Env services)
      → Quiet (ended key ∷ env.events) (notify_stream_end services key env).0.events
  unfolding notify_stream_end
  notify_stream_end-events key env = ground arith

  abbrev pub noted : Option ℕ → List Event → List Event
  noted none es = es
  noted (some p) es = allocated p ∷ es

  pub allocate_port-events :
      (env : Env services)
      → Quiet
          (noted (allocate_port services env).1 env.events)
          (allocate_port services env).0.events
  unfolding allocate_port
  allocate_port-events env = ground arith

  pub free_port-events :
      (port : ℕ) (env : Env services)
      → Quiet (freed port ∷ env.events) (free_port services port env).0.events
  unfolding free_port
  free_port-events port env = record {
    same_allocated = refl;
    same_freed = refl;
    same_started = refl;
    same_ended = refl;
  }

-- An attribute leaves the port and the stream key alone.
pub set_attribute-session :
    (key value : Text) (conn conn' : ConnectionState)
    → set_attribute key value conn ≡ some conn'
    → (conn'.rtp_port ≡ conn.rtp_port) × (conn'.stream_key ≡ conn.stream_key)
unfolding set_attribute
set_attribute-session key value conn conn' h = ground arith

-- What every command but `Dot` and `Disconnect` keeps.
pub record KeepsPorts (es es' : List Event) (port port' : Option ℕ) : Type 0 where
  pub same_allocated : allocated_ports es' ≡ allocated_ports es
  pub same_freed : freed_ports es' ≡ freed_ports es
  pub same_ended : ended_keys es' ≡ ended_keys es
  pub same_port : port' ≡ port

attribute-same_port :
    (key value : Option Text) (conn : ConnectionState)
    → (handle_attribute key value conn).state.rtp_port ≡ conn.rtp_port
unfolding handle_attribute
attribute-same_port (some key) (some value) conn =
    elim (Option-cases (set_attribute key value conn)) [
      | inl e ↦ rw e
      | inr (conn', e) ↦ rw e (set_attribute-session key value conn conn' e).0
    ]
attribute-same_port (some key) none conn = refl
attribute-same_port none (some value) conn = refl
attribute-same_port none none conn = refl

module _ (services : Services) where
  connect-KeepsPorts :
      (key channel : Option Text) (conn : ConnectionState) (env : Env services)
      → KeepsPorts env.events
          (handle_connect services key channel conn env).0.events
          conn.rtp_port
          (handle_connect services key channel conn env).1.state.rtp_port
  unfolding handle_connect
  connect-KeepsPorts (some key) (some channel) conn env =
      let q = notify_stream_start-events services key env in
      record {
        same_allocated = q.same_allocated;
        same_freed = q.same_freed;
        same_ended = q.same_ended;
        same_port = refl;
      }
  connect-KeepsPorts (some key) none conn env = record {
    same_allocated = refl;
    same_freed = refl;
    same_ended = refl;
    same_port = refl;
  }
  connect-KeepsPorts none channel conn env = record {
    same_allocated = refl;
    same_freed = refl;
    same_ended = refl;
    same_port = refl;
  }

  pub handle_command-KeepsPorts :
      (c : FtlCommand) (conn : ConnectionState) (env : Env services)
      → KeepsPorts env.events
          (handle_command services c conn env).0.events
          conn.rtp_port
          (handle_command services c conn env).1.state.rtp_port
  unfolding handle_command
  handle_command-KeepsPorts hmac conn env =
      let q = generate_hmac-Quiet services env in
      record {
        same_allocated = q.same_allocated;
        same_freed = q.same_freed;
        same_ended = q.same_ended;
        same_port = refl;
      }
  handle_command-KeepsPorts (connect entries) conn env =
      connect-KeepsPorts (get (lit "stream_key") entries) (get (lit "channel_id") entries) conn env
  handle_command-KeepsPorts (attribute entries) conn env = record {
    same_allocated = refl;
    same_freed = refl;
    same_ended = refl;
    same_port = attribute-same_port (get (lit "key") entries) (get (lit "value") entries) conn;
  }
  handle_command-KeepsPorts _ conn env = record {
    same_allocated = refl;
    same_freed = refl;
    same_ended = refl;
    same_port = refl;
  }

  -- Writing to the client says nothing of ports or streams.
  module _ (framed : Framed services.World) where
    send_item-Quiet :
        (item : Text) (frame : framed.Frame) (env : Env services)
        → Quiet env.events (send_item services framed item frame env).0.events
    unfolding send_item
    send_item-Quiet item frame env = ground arith

    write_in_order-Quiet :
        (items : List Text) (frame : framed.Frame) (env : Env services)
        → Quiet env.events (write_in_order services framed items frame env).0.events
    unfolding write_in_order
    write_in_order-Quiet [] frame env = Quiet-refl env.events
    write_in_order-Quiet (item ∷ items) frame env =
        let (env', w) = send_item services framed item frame env in
        let first = send_item-Quiet item frame env in
        ground (arith, first, Quiet-trans first (write_in_order-Quiet items w.frame env'))

    pub handle_frame_command-Quiet :
        (c : Option FrameCommand) (frame : framed.Frame) (env : Env services)
        → Quiet env.events (handle_frame_command services framed c frame env).0.events
    handle_frame_command-Quiet (some (send pieces)) frame env =
        rw (handle_frame_command-write_in_order services framed pieces frame env)
          (write_in_order-Quiet pieces frame env)
    handle_frame_command-Quiet none frame env =
        rw (handle_frame_command-none services framed frame env) (Quiet-refl env.events)
