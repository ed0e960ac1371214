-- ===== src/Connection/Tasks/Streams.antt =====
-- ingest/src/connection/mod.rs, the command task of `init`: the streams announced and ended since
-- the connection began.
use itgv.Base.{
  ℕ, ◌≡◌, refl, sym, ap, subst, ◌∙◌, ◌⊎◌, inl, inr, true, Option, none, some, List, [], ◌∷◌, ◌++◌,
  Option-cases,
}
use itgv.Connection.Handler.{
  FrameCommand, handle_command, handle_attribute, handle_connect, set_attribute,
}
use itgv.Connection.Ports.{
  started_keys, ended_keys, notify_stream_start-events, allocate_port-events, generate_hmac-Quiet,
  set_attribute-session, noted,
}
use itgv.Connection.Remote.{Env, Event, allocate_port}
use itgv.Connection.Services.{Services}
use itgv.Connection.State.{ConnectionState}
use itgv.Connection.Tasks.CleanUp.{CleansUp, clean_up-CleansUp}
use itgv.Connection.Tasks.{
  ConnTask, receiving, answering, conn_done, Then, continue, connected, give_up, to_answer,
  with_port, answer_dot, clean_up, on_dot, on_other, on_command, after_answer,
}
use itgv.FtlCodec.{FtlCommand, hmac, connect, ping, dot, attribute, disconnect}
use itgv.Std.HashMap.{get}
use itgv.Std.Text.{Text, lit}

-- The announcements and the ends told before the connection began.
pub record Before : Type 0 where
  pub started : List Text
  pub ended : List Text

-- The key in the state is the one announced last by this connection, and there is none where
-- nothing was announced.
abbrev pub Announced : Before → Option Text → List Text → Type 0
Announced b none started = started ≡ b.started
Announced b (some key) started = (earlier : List Text) × (started ≡ key ∷ (earlier ++ b.started))

-- While the command task runs no end was told.
pub record Open (b : Before) (key : Option Text) (es : List Event) : Type 0 where
  pub none_ended : ended_keys es ≡ b.ended
  pub last : Announced b key (started_keys es)

-- Afterwards at most one end was told: that of the key announced last.
abbrev pub Closed : Before → List Event → Type 0
Closed b es =
    (ended_keys es ≡ b.ended)
    ⊎ ((key : Text) × (earlier : List Text) × (started_keys es ≡ key ∷ (earlier ++ b.started))
        × (ended_keys es ≡ key ∷ b.ended))

abbrev pub Streams : Before → List Event → ConnTask → Type 0
Streams b es (receiving st) = Open b st.stream_key es
Streams b es (answering st _ _) = Open b st.stream_key es
Streams b es conn_done = Closed b es

-- Events that leave the announcements and the ends alone.
pub Open-same :
    (b : Before) (key : Option Text) (es es' : List Event)
    → started_keys es' ≡ started_keys es
    → ended_keys es' ≡ ended_keys es
    → Open b key es
    → Open b key es'
Open-same b none es es' s e o = record { none_ended = e ∙ o.none_ended; last = s ∙ o.last }
Open-same b (some key) es es' s e o = record {
  none_ended = e ∙ o.none_ended;
  last = (o.last.0, s ∙ o.last.1);
}

-- One more announcement, whatever stood in the state.
Open-announced :
    (b : Before) (old : Option Text) (key : Text) (es es' : List Event)
    → started_keys es' ≡ key ∷ started_keys es
    → ended_keys es' ≡ ended_keys es
    → Open b old es
    → Open b (some key) es'
Open-announced b none key es es' s e o = record {
  none_ended = e ∙ o.none_ended;
  last = ([], s ∙ ap (◌∷◌ key) o.last);
}
Open-announced b (some old) key es es' s e o = record {
  none_ended = e ∙ o.none_ended;
  last = (old ∷ o.last.0, s ∙ ap (◌∷◌ key) o.last.1);
}

attribute-same_key :
    (key value : Option Text) (conn : ConnectionState)
    → (handle_attribute key value conn).state.stream_key ≡ conn.stream_key
unfolding handle_attribute
attribute-same_key (some key) (some value) conn =
    elim (Option-cases (set_attribute key value conn)) [
      | inl e ↦ rw e
      | inr (conn', e) ↦ rw e (set_attribute-session key value conn conn' e).1
    ]
attribute-same_key (some key) none conn = refl
attribute-same_key none (some value) conn = refl
attribute-same_key none none conn = refl

module _ (services : Services) where
  connect-Open :
      (b : Before) (key channel : Option Text) (st : ConnectionState) (env : Env services)
      → Open b st.stream_key env.events
      → Open b
          (handle_connect services key channel st env).1.state.stream_key
          (handle_connect services key channel st env).0.events
  unfolding handle_connect
  connect-Open b (some key) (some channel) st env o =
      let q = notify_stream_start-events services key env in
      Open-announced b st.stream_key key env.events _ q.same_started q.same_ended o
  connect-Open b (some key) none st env o = o
  connect-Open b none channel st env o = o

  handle_command-Open :
      (b : Before) (c : FtlCommand) (st : ConnectionState) (env : Env services)
      → Open b st.stream_key env.events
      → Open b
          (handle_command services c st env).1.state.stream_key
          (handle_command services c st env).0.events
  unfolding handle_command
  handle_command-Open b hmac st env o =
      let q = generate_hmac-Quiet services env in
      Open-same b st.stream_key env.events _ q.same_started q.same_ended o
  handle_command-Open b (connect entries) st env o =
      connect-Open b (get (lit "stream_key") entries) (get (lit "channel_id") entries) st env o
  handle_command-Open b (attribute entries) st env o =
      subst (λ key. Open b key env.events)
        (sym (attribute-same_key (get (lit "key") entries) (get (lit "value") entries) st)) o
  handle_command-Open b _ st env o = o

  to_answer-Streams :
      (b : Before) (es : List Event) (st : ConnectionState) (answer : Option FrameCommand)
      → Open b st.stream_key es
      → Streams b es (to_answer services st answer)
  to_answer-Streams b es st none o = o
  to_answer-Streams b es st (some r) o = o

  other-Streams :
      (b : Before) (c : FtlCommand) (st : ConnectionState) (env : Env services)
      → Open b st.stream_key env.events
      → Streams b (on_other services c st env).0.events (on_other services c st env).1
  unfolding on_other
  other-Streams b c st env o =
      to_answer-Streams b _ (handle_command services c st env).1.state
        (handle_command services c st env).1.answer (handle_command-Open b c st env o)

  answer_dot-Streams :
      (b : Before) (es : List Event) (st : ConnectionState) (port : Option ℕ)
      → Open b st.stream_key es
      → Streams b es (answer_dot services st port)
  answer_dot-Streams b es st none o = o
  answer_dot-Streams b es st (some port) o = o

  noted-started :
      (p : Option ℕ) (es : List Event)
      → (started_keys (noted services p es) ≡ started_keys es)
        × (ended_keys (noted services p es) ≡ ended_keys es)
  noted-started none es = (refl, refl)
  noted-started (some p) es = (refl, refl)

  dot-Streams :
      (b : Before) (st : ConnectionState) (port : Option ℕ) (env : Env services)
      → Open b st.stream_key env.events
      → Streams b (on_dot services st port env).0.events (on_dot services st port env).1
  unfolding on_dot
  dot-Streams b st (some p) env o = o
  dot-Streams b st none env o =
      let port = (allocate_port services env).1 in
      let q = allocate_port-events services env in
      let (s, e) = noted-started port env.events in
      answer_dot-Streams b _ (with_port services st port) port
        (Open-same b st.stream_key env.events _ (q.same_started ∙ s) (q.same_ended ∙ e) o)

  CleansUp-Closed :
      (b : Before) (key : Option Text) (port : Option ℕ) (es es' : List Event)
      → Open b key es
      → CleansUp services key port es es'
      → Closed b es'
  CleansUp-Closed b none port es es' o c = inl (c.ends ∙ o.none_ended)
  CleansUp-Closed b (some key) port es es' o c =
      inr (key, o.last.0, c.same_started ∙ o.last.1, c.ends ∙ ap (◌∷◌ key) o.none_ended)

  clean_up-Streams :
      (b : Before) (st : ConnectionState) (env : Env services)
      → Open b st.stream_key env.events
      → Streams b (clean_up services st env).0.events (clean_up services st env).1
  unfolding clean_up
  clean_up-Streams b st env o =
      CleansUp-Closed b st.stream_key st.rtp_port env.events _ o (clean_up-CleansUp services st env)

  pub on_command-Streams :
      (b : Before) (c : Option FtlCommand) (st : ConnectionState) (env : Env services)
      → Streams b env.events (receiving st)
      → Streams b (on_command services c st env).0.events (on_command services c st env).1
  unfolding on_command
  on_command-Streams b none st env o = clean_up-Streams b st env o
  on_command-Streams b (some disconnect) st env o = clean_up-Streams b st env o
  on_command-Streams b (some dot) st env o = dot-Streams b st st.rtp_port env o
  on_command-Streams b (some hmac) st env o = other-Streams b hmac st env o
  on_command-Streams b (some (connect entries)) st env o =
      other-Streams b (connect entries) st env o
  on_command-Streams b (some ping) st env o = other-Streams b ping st env o
  on_command-Streams b (some (attribute entries)) st env o =
      other-Streams b (attribute entries) st env o

  pub after_answer-Streams :
      (b : Before) (then_do : Then) (st : ConnectionState) (r : FrameCommand) (env : Env services)
      → Streams b env.events (answering st r then_do)
      → Streams b
          (after_answer services then_do true st env).0.events
          (after_answer services then_do true st env).1
  unfolding after_answer
  after_answer-Streams b continue st r env o = o
  after_answer-Streams b connected st r env o = Open-same b st.stream_key env.events _ refl refl o
  after_answer-Streams b give_up st r env o = inl o.none_ended
