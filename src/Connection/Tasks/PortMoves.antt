-- ===== src/Connection/Tasks/PortMoves.antt =====
-- ingest/src/connection/mod.rs, the command task of `init`: ports taken and given back by each of its
-- reactions.
use itgv.Base.{
  ◌+◌, count, count-append, arith, ℕ, ◌≡◌, refl, sym, ap, ◌∙◌, true, Option, none, some, List, [],
  ◌∷◌, ◌++◌,
}
use mathlib.Core.Path.{ap₂}
use itgv.Connection.Handler.{FrameCommand, handle_command}
use itgv.Connection.Ports.{
  allocated_ports, freed_ports, Quiet, allocate_port-events, handle_command-KeepsPorts, KeepsPorts,
  noted,
}
use itgv.Connection.Remote.{Env, Event, allocate_port}
use itgv.Connection.Services.{Services}
use itgv.Connection.State.{ConnectionState}
use itgv.Connection.Tasks.{
  ConnTask, receiving, answering, conn_done, Then, continue, connected, give_up, to_answer,
  with_port, answer_dot, clean_up, on_dot, on_other, on_command, after_answer,
}
use itgv.Connection.Tasks.CleanUp.{listed, clean_up-CleansUp}
use itgv.FtlCodec.{FtlCommand, hmac, connect, ping, dot, attribute, disconnect}

-- The port that the task would still give back.
abbrev pub held : ConnTask → List ℕ
held (receiving st) = listed st.rtp_port
held (answering st _ _) = listed st.rtp_port
held conn_done = []

-- Only a task without a port is about to give up.
abbrev pub NoPort : ConnTask → Type 0
NoPort (answering st _ give_up) = st.rtp_port ≡ none
NoPort (answering _ _ continue) = Unit {0}
NoPort (answering _ _ connected) = Unit {0}
NoPort (receiving _) = Unit {0}
NoPort conn_done = Unit {0}

-- What one reaction of the command task does to the ports: nothing, or one more is taken by a task
-- that held none, or all that is held is given back.
pub data PortMove (es es' : List Event) (hs hs' : List ℕ) : Type 0 where
  keeps :
      allocated_ports es' ≡ allocated_ports es
      → freed_ports es' ≡ freed_ports es
      → hs' ≡ hs
      → PortMove es es' hs hs'
  takes :
      (p : ℕ)
      → hs ≡ []
      → hs' ≡ p ∷ []
      → allocated_ports es' ≡ p ∷ allocated_ports es
      → freed_ports es' ≡ freed_ports es
      → PortMove es es' hs hs'
  returns :
      hs' ≡ []
      → allocated_ports es' ≡ allocated_ports es
      → freed_ports es' ≡ hs ++ freed_ports es
      → PortMove es es' hs hs'

pub PortMove-balance :
    {es es' : List Event} {hs hs' : List ℕ}
    → PortMove es es' hs hs'
    → allocated_ports es ≡ hs ++ freed_ports es
    → allocated_ports es' ≡ hs' ++ freed_ports es'
PortMove-balance (keeps a f h) b = a ∙ b ∙ ap₂ ◌++◌ (sym h) (sym f)
PortMove-balance (takes p e h a f) b = rw h (a ∙ ap (◌∷◌ p) (b ∙ ap₂ ◌++◌ e (sym f)))
PortMove-balance (returns h a f) b = rw h (a ∙ b ∙ sym f)

-- The same for the number of times that a port stands in each list, with `n` more of it elsewhere.
pub PortMove-count :
    {es es' : List Event} {hs hs' : List ℕ} (p n : ℕ)
    → PortMove es es' hs hs'
    → count p (allocated_ports es) ≡ count p hs + (count p (freed_ports es) + n)
    → count p (allocated_ports es') ≡ count p hs' + (count p (freed_ports es') + n)
PortMove-count p n (keeps a f h) b = rw (a, f, h) b
PortMove-count p n (takes q e h a f) b = rw (a, f, h) (ground (arith, rw e at b))
PortMove-count {es} {es'} {hs} p n (returns h a f) b =
    rw (a, f, h) (omega (arith, b, count-append p hs (freed_ports es)))

module _ (services : Services) where
  clean_up-PortMove :
      (st : ConnectionState) (env : Env services)
      → PortMove env.events (clean_up services st env).0.events (listed st.rtp_port) []
  clean_up-PortMove st env =
      let c = clean_up-CleansUp services st env in returns refl c.same_allocated c.frees

  dot-PortMove :
      (st : ConnectionState) (port : Option ℕ) (env : Env services)
      → st.rtp_port ≡ port
      → PortMove env.events
          (on_dot services st port env).0.events
          (listed st.rtp_port)
          (held (on_dot services st port env).1)
  unfolding on_dot
  dot-PortMove st (some p) env e = keeps refl refl refl
  dot-PortMove st none env e =
      allotted (allocate_port services env).1 (allocate_port-events services env)
    where
      allotted :
          (p : Option ℕ) {es' : List Event}
          → Quiet (noted services p env.events) es'
          → PortMove env.events es'
              (listed st.rtp_port)
              (held (answer_dot services (with_port services st p) p))
      allotted none q = keeps q.same_allocated q.same_freed (rw e)
      allotted (some p) q = takes p (rw e) refl q.same_allocated q.same_freed

  other-PortMove :
      (c : FtlCommand) (st : ConnectionState) (env : Env services)
      → PortMove env.events
          (on_other services c st env).0.events
          (listed st.rtp_port)
          (held (on_other services c st env).1)
  unfolding on_other
  other-PortMove c st env =
      answered (handle_command services c st env).1.answer
        (handle_command services c st env).1.state (handle_command-KeepsPorts services c st env)
    where
      answered :
          (answer : Option FrameCommand) (st' : ConnectionState) {es' : List Event}
          → KeepsPorts env.events es' st.rtp_port st'.rtp_port
          → PortMove env.events es' (listed st.rtp_port) (held (to_answer services st' answer))
      answered none st' k = keeps k.same_allocated k.same_freed (ap listed k.same_port)
      answered (some r) st' k = keeps k.same_allocated k.same_freed (ap listed k.same_port)

  pub on_command-PortMove :
      (c : Option FtlCommand) (st : ConnectionState) (env : Env services)
      → PortMove env.events
          (on_command services c st env).0.events
          (listed st.rtp_port)
          (held (on_command services c st env).1)
  unfolding on_command clean_up
  on_command-PortMove none st env = clean_up-PortMove st env
  on_command-PortMove (some disconnect) st env = clean_up-PortMove st env
  on_command-PortMove (some dot) st env = dot-PortMove st st.rtp_port env refl
  on_command-PortMove (some hmac) st env = other-PortMove hmac st env
  on_command-PortMove (some (connect entries)) st env = other-PortMove (connect entries) st env
  on_command-PortMove (some ping) st env = other-PortMove ping st env
  on_command-PortMove (some (attribute entries)) st env = other-PortMove (attribute entries) st env

  dot-NoPort :
      (st : ConnectionState) (port : Option ℕ) (env : Env services)
      → NoPort (on_dot services st port env).1
  unfolding on_dot
  dot-NoPort st (some p) env = tt
  dot-NoPort st none env = allotted (allocate_port services env).1
    where
      allotted : (p : Option ℕ) → NoPort (answer_dot services (with_port services st p) p)
      allotted none = refl
      allotted (some p) = tt

  other-NoPort :
      (c : FtlCommand) (st : ConnectionState) (env : Env services)
      → NoPort (on_other services c st env).1
  unfolding on_other
  other-NoPort c st env =
      answered (handle_command services c st env).1.answer
        (handle_command services c st env).1.state
    where
      answered :
          (answer : Option FrameCommand) (st' : ConnectionState)
          → NoPort (to_answer services st' answer)
      answered none st' = tt
      answered (some r) st' = tt

  pub on_command-NoPort :
      (c : Option FtlCommand) (st : ConnectionState) (env : Env services)
      → NoPort (on_command services c st env).1
  unfolding on_command clean_up
  on_command-NoPort none st env = tt
  on_command-NoPort (some disconnect) st env = tt
  on_command-NoPort (some dot) st env = dot-NoPort st st.rtp_port env
  on_command-NoPort (some hmac) st env = other-NoPort hmac st env
  on_command-NoPort (some (connect entries)) st env = other-NoPort (connect entries) st env
  on_command-NoPort (some ping) st env = other-NoPort ping st env
  on_command-NoPort (some (attribute entries)) st env = other-NoPort (attribute entries) st env

  pub after_answer-PortMove :
      (then_do : Then) (st : ConnectionState) (r : FrameCommand) (env : Env services)
      → NoPort (answering st r then_do)
      → PortMove env.events
          (after_answer services then_do true st env).0.events
          (listed st.rtp_port)
          (held (after_answer services then_do true st env).1)
  unfolding after_answer
  after_answer-PortMove continue st r env h = keeps refl refl refl
  after_answer-PortMove connected st r env h = keeps refl refl refl
  after_answer-PortMove give_up st r env h = keeps refl refl (sym (ap listed h))

  pub after_answer-NoPort :
      (then_do : Then) (st : ConnectionState) (env : Env services)
      → NoPort (after_answer services then_do true st env).1
  unfolding after_answer
  after_answer-NoPort continue st env = tt
  after_answer-NoPort connected st env = tt
  after_answer-NoPort give_up st env = tt
