-- ===== src/Connection/Tasks/Dot.antt =====
-- ingest/src/connection/mod.rs, the `Dot` branch of the command task: the port that the client is
-- told, and what happens where none can be had.
use itgv.Base.{ℕ, ◌≡◌, refl, ap, ◌∙◌, Bool, Option, none, some, [], ◌∷◌, drop}
use itgv.Connection.Handler.{send}
use itgv.Connection.Ports.{ended_keys, allocate_port-events}
use itgv.Connection.Remote.{Env, allocate_port}
use itgv.Connection.Services.{Services}
use itgv.Connection.State.{ConnectionState}
use itgv.Connection.Tasks.{
  ConnTask, answering, conn_done, connected, give_up, refusal, port_line, on_dot, on_command,
  after_answer, answer_dot, with_port,
}
use itgv.FtlCodec.{dot}
use itgv.Std.Decimal.RoundTrip.{read_from, read_from-display}
use itgv.Std.Decimal.{display}
use itgv.Std.Text.{Text}

-- What a client does with the answer: it skips the 21 characters before the number, and reads
-- digits.
abbrev pub read_port_line : Text → ℕ
read_port_line line = read_from 0 (drop 21 line)

read_port_line-port_line : (p : ℕ) → read_port_line (port_line (display p)) ≡ p
read_port_line-port_line p = read_from-display p b'\n' [] refl

module _ (services : Services) where
  -- The answer names the port in the state, and a client that reads it gets that number.
  pub record Told (task : ConnTask) (port : ℕ) : Type 0 where
    pub state : ConnectionState
    pub line : Text
    pub answers : task ≡ answering state (send (line ∷ [])) connected
    pub keeps : state.rtp_port ≡ some port
    pub reads : read_port_line line ≡ port

  -- What a dot comes to with a port in the state, with a port from the server, and with none.
  pub data DotAnswer (st : ConnectionState) (env : Env services) (task : ConnTask)
      (now : Env services) : Type 0 where
    told_again :
        (p : ℕ) → st.rtp_port ≡ some p → Told task p → now ≡ env → DotAnswer st env task now
    told_new :
        (p : ℕ)
        → st.rtp_port ≡ none
        → (allocate_port services env).1 ≡ some p
        → Told task p
        → DotAnswer st env task now
    refused :
        st.rtp_port ≡ none
        → (allocate_port services env).1 ≡ none
        → task ≡ answering (record st { rtp_port = none }) refusal give_up
        → DotAnswer st env task now

  dot-DotAnswer :
      (st : ConnectionState) (env : Env services) (port got : Option ℕ)
      → st.rtp_port ≡ port
      → (allocate_port services env).1 ≡ got
      → DotAnswer st env (on_dot services st port env).1 (on_dot services st port env).0
  unfolding on_dot
  dot-DotAnswer st env (some p) got h a =
      told_again p h
        (record {
          state = st;
          line = port_line (display p);
          answers = refl;
          keeps = h;
          reads = read_port_line-port_line p;
        })
        refl
  dot-DotAnswer st env none (some p) h a = told_new p h a (record {
    state = record st { rtp_port = some p };
    line = port_line (display p);
    answers = ap (λ o. answer_dot services (with_port services st o) o) a;
    keeps = refl;
    reads = read_port_line-port_line p;
  })
  dot-DotAnswer st env none none h a =
      refused h a (ap (λ o. answer_dot services (with_port services st o) o) a)

  -- A dot on a connection that has a port asks for no other and tells that one again; on one that
  -- has none it tells the port that the server gives out; and where the server gives none, the
  -- answer is the refusal, with which the task gives up.
  pub on_command-dot :
      (st : ConnectionState) (env : Env services)
      → DotAnswer st env
          (on_command services (some dot) st env).1
          (on_command services (some dot) st env).0
  unfolding on_command
  on_command-dot st env = dot-DotAnswer st env st.rtp_port (allocate_port services env).1 refl refl

  -- On a dot where the connection has no port and none can be had, the task returns once the
  -- refusal is sent or lost, and on the way no end of the stream is told, also where the state has
  -- a stream key.
  pub refusal_tells_no_end :
      (st : ConnectionState) (env : Env services) (done : Bool)
      → st.rtp_port ≡ none
      → (allocate_port services env).1 ≡ none
      → (st' : ConnectionState) × (env' : Env services) × (on_command services (some dot) st env
          ≡ (env', answering st' refusal give_up))
        × (st'.stream_key ≡ st.stream_key)
        × ((after_answer services give_up done st' env').1 ≡ conn_done)
        × (ended_keys (after_answer services give_up done st' env').0.events
            ≡ ended_keys env.events)
  unfolding on_command after_answer
  refusal_tells_no_end st env done h a = (
    record st { rtp_port = none },
    (allocate_port services env).0,
    ap (λ o. on_dot services st o env) h
        ∙ ap
            (λ o. ((allocate_port services env).0, answer_dot services (with_port services st o) o))
            a,
    refl,
    refl,
    (rw a at (allocate_port-events services env)).same_ended,
  )
