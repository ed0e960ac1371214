-- ===== src/Connection/Remote/Log.antt =====
-- ingest/src/connection/mod.rs: which requests stand behind the announcements and ends of streams and
-- behind the ports given out and given back.
use itgv.Base.{ℕ, ◌≡◌, refl, sym, subst, Option, none, some, List, [], ◌∷◌, ◌++◌}
use itgv.Connection.Frame.Order.{written_after}
use itgv.Connection.Remote.Results.{read_port-events, samples-events}
use itgv.Connection.Remote.{
  Env, Action, Event, started, ended, opened, sent_text, posted, deleted, allocated, freed, wrote,
  printed, auth_url, base_url, notify_stream_start, notify_stream_end, allocate_port, free_port,
  generate_hmac, open_auth, send_message, finish_start, start_on, end_on, note_port,
}
use itgv.Connection.Services.{Services}
use itgv.Connection.State.{LogLine}
use itgv.Std.Decimal.{display}
use itgv.Std.Result.{Result, ok, err}
use itgv.Std.Text.{Text, lit}

module _ (services : Services) where
  abbrev pub start_message : Text → Text
  start_message key = services.json_object ((lit "stream_key", key) ∷ [])

  abbrev pub end_message : Text → Text
  end_message key =
      services.json_object ((lit "stream_key", key) ∷ (lit "status", lit "ended") ∷ [])

  -- What may have been done outside since `base`, piece by piece. A stream is announced or ended by
  -- opening a connection to the authentication service and, if that is open, sending its message; a
  -- port is given out by a POST to "/stream", and given back by a DELETE of "/stream" that names it.
  pub data Log (base : List Event) : List Event → Type 0 where
    nothing : Log base base
    writing : (item : Text) {es : List Event} → Log base es → Log base (wrote item ∷ es)
    printing :
        (lines : List LogLine) {es : List Event} → Log base es → Log base (printed lines ∷ es)
    start_unheard :
        (key : Text) {es : List Event}
        → Log base es
        → Log base (opened (lit "wss://meow.com/stream/auth") ∷ started key ∷ es)
    start_told :
        (key : Text) {es : List Event}
        → Log base es
        → Log base (
            sent_text (start_message key)
            ∷ opened (lit "wss://meow.com/stream/auth")
            ∷ started key
            ∷ es)
    end_unheard :
        (key : Text) {es : List Event}
        → Log base es
        → Log base (opened (lit "wss://meow.com/stream/auth") ∷ ended key ∷ es)
    end_told :
        (key : Text) {es : List Event}
        → Log base es
        → Log base (
            sent_text (end_message key)
            ∷ opened (lit "wss://meow.com/stream/auth")
            ∷ ended key
            ∷ es)
    refused :
        (w : services.World) {es : List Event}
        → Log base es
        → Log base (posted (base_url services w ++ lit "/stream") ∷ es)
    given :
        (w : services.World) (port : ℕ) {es : List Event}
        → Log base es
        → Log base (allocated port ∷ posted (base_url services w ++ lit "/stream") ∷ es)
    given_back :
        (w : services.World) (port : ℕ) {es : List Event}
        → Log base es
        → Log base (
            deleted (base_url services w ++ (lit "/stream?port=" ++ display port))
            ∷ freed port
            ∷ es)

  abbrev pub Logging : List Event → {A : Type 0} → Action services A → Type 0
  Logging base m = (env : Env services) → Log base env.events → Log base (m env).0.events

  pub written_after-Log :
      (base : List Event) (items : List Text) (es : List Event)
      → Log base es
      → Log base (written_after es items)
  written_after-Log base [] es l = l
  written_after-Log base (item ∷ items) es l =
      written_after-Log base items (wrote item ∷ es) (writing item l)

  module _ (base : List Event) where
    finish_start-events :
        (socket : services.WebSocket) (r : Result services.Error (Unit {0})) (env : Env services)
        → (finish_start services socket r env).0.events ≡ env.events
    finish_start-events socket (ok _) env = refl
    finish_start-events socket (err e) env = refl

    start_on-Log :
        (key : Text) (r : Result services.Error services.WebSocket) (w : services.World)
        (es : List Event)
        → Log base es
        → Log base
            (start_on services key r (record {
              world = w;
              events = opened (auth_url services) ∷ started key ∷ es;
            })).0.events
    unfolding send_message
    start_on-Log key (err e) w es l = start_unheard key l
    start_on-Log key (ok socket) w es l =
        subst (Log base) (sym (finish_start-events socket _ _)) (start_told key l)

    pub notify_stream_start-Log : (key : Text) → Logging base (notify_stream_start services key)
    unfolding notify_stream_start open_auth
    notify_stream_start-Log key env l = start_on-Log key _ _ env.events l

    end_on-Log :
        (key : Text) (r : Result services.Error services.WebSocket) (w : services.World)
        (es : List Event)
        → Log base es
        → Log base
            (end_on services key r
              (record { world = w; events = opened (auth_url services) ∷ ended key ∷ es })).0.events
    unfolding send_message
    end_on-Log key (err e) w es l = end_unheard key l
    end_on-Log key (ok socket) w es l = end_told key l

    pub notify_stream_end-Log : (key : Text) → Logging base (notify_stream_end services key)
    unfolding notify_stream_end open_auth
    notify_stream_end-Log key env l = end_on-Log key _ _ env.events l

    note_port-Log :
        (port : Option ℕ) (env : Env services) (w : services.World) (es : List Event)
        → Log base es
        → env.events ≡ posted (base_url services w ++ lit "/stream") ∷ es
        → Log base (note_port services port env).0.events
    note_port-Log none env w es l e = subst (Log base) (sym e) (refused w l)
    note_port-Log (some port) env w es l e =
        subst (λ fs. Log base (allocated port ∷ fs)) (sym e) (given w port l)

    pub allocate_port-Log : Logging base (allocate_port services)
    unfolding allocate_port
    allocate_port-Log env l =
        note_port-Log _ _ env.world env.events l (read_port-events services _ _)

    pub free_port-Log : (port : ℕ) → Logging base (free_port services port)
    unfolding free_port
    free_port-Log port env l = given_back env.world port l

    pub generate_hmac-Log : Logging base (generate_hmac services)
    unfolding generate_hmac
    generate_hmac-Log env l = subst (Log base) (sym (samples-events services 128 env)) l
