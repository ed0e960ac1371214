-- ===== src/Connection/Remote/Growth.antt =====
-- ingest/src/connection/mod.rs: the calls outside, and what each adds to the events.
use itgv.Base.{
  ℕ, zero, suc, ◌≡◌, refl, sym, ap, ◌∙◌, Option, none, some, List, [], ◌∷◌, ◌++◌, append_assoc,
}
use itgv.Connection.Remote.{
  Env, Action, Event, started, ended, posted, deleted, freed, allocated, opened, sent_text, emit,
  notify_stream_start, notify_stream_end, allocate_port, free_port, samples, generate_hmac,
  open_auth, send_message, start_on, end_on, finish_start, read_port, note_port, auth_url,
}
use itgv.Connection.Services.{Services}
use itgv.Std.Io.{◌>>=◌}
use itgv.Std.Result.{Result, ok, err}
use itgv.Std.Text.{Text}

-- `es'` are `es` with later events in front.
pub record Grows (es es' : List Event) : Type 0 where
  pub more : List Event
  pub same : es' ≡ more ++ es

pub Grows-refl : (es : List Event) → Grows es es
Grows-refl es = record { more = []; same = refl }

pub Grows-cons : {es es' : List Event} (e : Event) → Grows es es' → Grows es (e ∷ es')
Grows-cons e g = record { more = e ∷ g.more; same = ap (◌∷◌ e) g.same }

pub Grows-trans : {a b c : List Event} → Grows a b → Grows b c → Grows a c
Grows-trans {a} p q = record {
  more = q.more ++ p.more;
  same = q.same ∙ ap (λ es. q.more ++ es) p.same ∙ sym (append_assoc q.more p.more a);
}

module _ (services : Services) where
  -- The action adds events and drops none.
  abbrev pub Growing : {A : Type 0} → Action services A → Type 0
  Growing m = (env : Env services) → Grows env.events (m env).0.events

  pub Growing-bind :
      {A B : Type 0} (m : Action services A) (f : A → Action services B)
      → Growing m
      → ((a : A) → Growing (f a))
      → Growing (m >>= f)
  Growing-bind m f g h env = Grows-trans (g env) (h (m env).1 (m env).0)

  Growing-emit : (e : Event) → Growing (emit services e)
  Growing-emit e env = Grows-cons e (Grows-refl env.events)

  open_auth-Growing : Growing (open_auth services)
  unfolding open_auth
  open_auth-Growing = Growing-emit (opened (auth_url services))

  send_message-Growing :
      (socket : services.WebSocket) (text : Text) → Growing (send_message services socket text)
  unfolding send_message
  send_message-Growing socket text = Growing-emit (sent_text text)

  finish_start-Growing :
      (socket : services.WebSocket) (r : Result services.Error (Unit {0}))
      → Growing (finish_start services socket r)
  finish_start-Growing socket (ok _) env = Grows-refl env.events
  finish_start-Growing socket (err e) env = Grows-refl env.events

  start_on-Growing :
      (key : Text) (r : Result services.Error services.WebSocket)
      → Growing (start_on services key r)
  start_on-Growing key (ok socket) env =
      Growing-bind (send_message services socket _) (finish_start services socket)
        (send_message-Growing socket _) (finish_start-Growing socket) env
  start_on-Growing key (err e) env = Grows-refl env.events

  end_on-Growing :
      (key : Text) (r : Result services.Error services.WebSocket) → Growing (end_on services key r)
  end_on-Growing key (ok socket) env = send_message-Growing socket _ env
  end_on-Growing key (err e) env = Grows-refl env.events

  pub notify_stream_start-Growing : (key : Text) → Growing (notify_stream_start services key)
  unfolding notify_stream_start
  notify_stream_start-Growing key env = Grows-trans (Growing-emit (started key) env) (
      Growing-bind (open_auth services) (start_on services key) open_auth-Growing
        (start_on-Growing key) (emit services (started key) env).0)

  pub notify_stream_end-Growing : (key : Text) → Growing (notify_stream_end services key)
  unfolding notify_stream_end
  notify_stream_end-Growing key env = Grows-trans (Growing-emit (ended key) env) (
      Growing-bind (open_auth services) (end_on services key) open_auth-Growing (end_on-Growing key)
        (emit services (ended key) env).0)

  read_port-Growing : (r : Result services.Error services.Response) → Growing (read_port services r)
  read_port-Growing (ok resp) env = Grows-refl env.events
  read_port-Growing (err e) env = Grows-refl env.events

  note_port-Growing : (port : Option ℕ) → Growing (note_port services port)
  note_port-Growing (some p) env = Growing-emit (allocated p) env
  note_port-Growing none env = Grows-refl env.events

  pub allocate_port-Growing : Growing (allocate_port services)
  unfolding allocate_port
  allocate_port-Growing env = Grows-trans (Growing-emit (posted _) env) (
      Growing-bind (read_port services _) (note_port services) (read_port-Growing _)
        note_port-Growing _)

  pub free_port-Growing : (port : ℕ) → Growing (free_port services port)
  unfolding free_port
  free_port-Growing port env =
      Grows-cons (deleted _) (Grows-cons (freed port) (Grows-refl env.events))

  samples-Growing : (n : ℕ) → Growing (samples services n)
  unfolding samples
  samples-Growing zero env = Grows-refl env.events
  samples-Growing (suc n) env =
      samples-Growing n (record env { world = (services.sample 0x00 0xff env.world).0 })

  pub generate_hmac-Growing : Growing (generate_hmac services)
  unfolding generate_hmac
  generate_hmac-Growing env = samples-Growing 128 env
