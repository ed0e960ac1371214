-- ===== src/Server/Connections/Ports.antt =====
-- ingest/src/main.rs and ingest/src/connection/mod.rs: the ports of all connections together.
use itgv.Base.{
  ℕ, zero, suc, ◌+◌, ◌≡◌, refl, sym, ap, subst, Option, none, some, List, [], ◌∷◌, ◌++◌, arith,
  count,
}
use itgv.Connection.Handler.{FrameCommand}
use itgv.Connection.Mpsc.{Mpsc}
use itgv.Connection.Ports.{allocated_ports, freed_ports, Quiet}
use itgv.Connection.Remote.{Env, Event}
use itgv.Connection.Services.{Services}
use itgv.Connection.Socket.{Framed}
use itgv.Connection.State.{new}
use itgv.Connection.System.Account.{Account, step-Holds}
use itgv.Connection.System.Lockstep.{Phase, Phase-env, init-Phase}
use itgv.Connection.System.Refinement.{view, view-init}
use itgv.Connection.System.{Task, init}
use itgv.Connection.Tasks.PortMoves.{
  held, NoPort, PortMove-count, on_command-PortMove, on_command-NoPort, after_answer-PortMove,
  after_answer-NoPort,
}
use itgv.Connection.Tasks.{ConnTask}
use itgv.FtlCodec.{FtlCommand}
use itgv.Server.Connections.{
  Happening, accepted, polled, Local, in_env, Server, step_at, spawned, react, while_open, serve,
  start,
}
use itgv.Std.Result.{ok, err}

abbrev no_port_account : (services : Services) → Account services
no_port_account services = record {
  Holds = λ es t. NoPort t;
  quiet = λ q g o h. h;
  taken = λ c st env h. on_command-NoPort services c st env;
  answered = λ k st r env h. after_answer-NoPort services k st env;
}

-- Of the port `p` as many were given out as this task holds, as were given back, and as `n` more.
pub record PortCount (p n : ℕ) (es : List Event) (t : ConnTask) : Type 0 where
  pub balance : count p (allocated_ports es) ≡ count p (held t) + (count p (freed_ports es) + n)
  pub refusing : NoPort t

Quiet-PortCount :
    (p n : ℕ) {es es' : List Event} {t : ConnTask}
    → Quiet es es'
    → PortCount p n es t
    → PortCount p n es' t
Quiet-PortCount p n q l = record {
  balance = rw (q.same_allocated, q.same_freed) l.balance;
  refusing = l.refusing;
}

abbrev count_account : (services : Services) → ℕ → ℕ → Account services
count_account services p n = record {
  Holds = PortCount p n;
  quiet = λ q g o l. Quiet-PortCount p n q l;
  taken = λ c st env l. record {
    balance = PortMove-count p n (on_command-PortMove services c st env) l.balance;
    refusing = on_command-NoPort services c st env;
  };
  answered = λ k st r env l. record {
    balance = PortMove-count p n (after_answer-PortMove services k st r env l.refusing) l.balance;
    refusing = after_answer-NoPort services k st env;
  };
}

module _ (services : Services) (framed : Framed services.World) (commands : Mpsc FtlCommand)
    (replies : Mpsc FrameCommand) where
  abbrev Locals : Type 0
  Locals = List (Local services framed commands replies)

  -- How often the connections hold the port `p`, together.
  abbrev pub total : ℕ → Locals → ℕ
  total p [] = 0
  total p (l ∷ ls) = count p (held l.conn) + total p ls

  -- Each connection is in a phase of its own.
  abbrev Calm : Locals → Type 0
  Calm [] = Unit {0}
  Calm (l ∷ ls) =
      ((env : Env services)
        → Phase services framed
            (view services framed commands replies (in_env services framed commands replies env l)))
      × NoPort l.conn
      × Calm ls

  -- The balance of one port over some connections, with `n` more of it in others.
  abbrev Balance : ℕ → ℕ → Env services → Locals → Type 0
  Balance p n env ls =
      count p (allocated_ports env.events) ≡ total p ls + (count p (freed_ports env.events) + n)

  step_at-Calm :
      (i : ℕ) (t : Task) (env : Env services) (ls : Locals)
      → Calm ls
      → Calm (step_at services framed commands replies i t env ls).1
  unfolding step_at
  step_at-Calm i t env [] c = tt
  step_at-Calm zero t env (l ∷ ls) c =
      let (phase, idle) =
        step-Holds services framed commands replies (no_port_account services) t
          (in_env services framed commands replies env l) (c.0 env) c.1 in
      (λ env'. Phase-env services framed env' phase, idle, c.2)
  step_at-Calm (suc i) t env (l ∷ ls) c = (c.0, c.1, step_at-Calm i t env ls c.2)

  step_at-Balance :
      (i : ℕ) (t : Task) (env : Env services) (ls : Locals) (p n : ℕ)
      → Calm ls
      → Balance p n env ls
      → Balance p n
          (step_at services framed commands replies i t env ls).0
          (step_at services framed commands replies i t env ls).1
  unfolding step_at
  step_at-Balance i t env [] p n c b = b
  step_at-Balance zero t env (l ∷ ls) p n c b =
      let (phase, books) =
        step-Holds services framed commands replies (count_account services p (n + total p ls)) t
          (in_env services framed commands replies env l) (c.0 env)
          (record { balance = omega (arith, b); refusing = c.1 }) in
      omega (arith, books.balance)
  step_at-Balance (suc i) t env (l ∷ ls) p n c b =
      omega (arith, step_at-Balance i t env ls p (n + count p (held l.conn)) c.2 (omega (arith, b)))

  total-append : (p : ℕ) (ls ms : Locals) → total p (ls ++ ms) ≡ total p ls + total p ms
  total-append p [] ms = omega arith
  total-append p (l ∷ ls) ms = omega (arith, total-append p ls ms)

  Calm-append : (ls ms : Locals) → Calm ls → Calm ms → Calm (ls ++ ms)
  Calm-append [] ms c d = d
  Calm-append (l ∷ ls) ms c d = (c.0, c.1, Calm-append ls ms c.2 d)

  spawned-Calm :
      (env : Env services) (frame : framed.Frame)
      → Calm (spawned services framed commands replies env frame ∷ [])
  unfolding spawned init
  spawned-Calm env frame = (
    λ now.
        subst (Phase services framed) (sym (view-init services framed commands replies now frame))
          (init-Phase services framed now frame),
    tt,
    tt,
  )

  -- A new connection holds no port.
  total-spawned :
      (p : ℕ) (env : Env services) (frame : framed.Frame)
      → total p (spawned services framed commands replies env frame ∷ []) ≡ 0
  unfolding spawned init new
  total-spawned p env frame = refl

  -- The connections and the ports of a server in good order.
  record InOrder (s : Server services framed commands replies) : Type 0 where
    calm : Calm s.connections
    balance :
        (p : ℕ)
        → count p (allocated_ports s.env.events)
          ≡ total p s.connections + count p (freed_ports s.env.events)

  react-InOrder :
      (s : Server services framed commands replies) (h : Happening services.Error framed.Frame)
      → InOrder s
      → InOrder (react services framed commands replies s h)
  react-InOrder s (accepted (ok frame)) o = record {
    calm = Calm-append s.connections _ o.calm (spawned-Calm s.env frame);
    balance = λ p. omega (
      arith,
      o.balance p,
      total-append p s.connections (spawned services framed commands replies s.env frame ∷ []),
      total-spawned p s.env frame,
    );
  }
  react-InOrder s (accepted (err e)) o = record { calm = o.calm; balance = o.balance }
  react-InOrder s (polled i t) o = record {
    calm = step_at-Calm i t s.env s.connections o.calm;
    balance = λ p.
        omega
          (arith, step_at-Balance i t s.env s.connections p 0 o.calm (omega (arith, o.balance p)));
  }

  while_open-InOrder :
      (e : Option services.Error) (s : Server services framed commands replies)
      (h : Happening services.Error framed.Frame)
      → InOrder s
      → InOrder (while_open services framed commands replies e s h)
  while_open-InOrder none s h o = react-InOrder s h o
  while_open-InOrder (some e) s h o = o

  serve-InOrder :
      (hs : List (Happening services.Error framed.Frame))
      (s : Server services framed commands replies)
      → InOrder s
      → InOrder (serve services framed commands replies hs s)
  unfolding serve
  serve-InOrder [] s o = o
  serve-InOrder (h ∷ hs) s o = serve-InOrder hs _ (while_open-InOrder s.ended_by s h o)

  -- The server after a history.
  abbrev pub served :
      List (Happening services.Error framed.Frame)
      → Env services
      → Server services framed commands replies
  served hs env =
      serve services framed commands replies hs (start services framed commands replies env)

  start-InOrder :
      (env : Env services)
      → allocated_ports env.events ≡ freed_ports env.events
      → InOrder (start services framed commands replies env)
  start-InOrder env h = record { calm = tt; balance = λ p. omega (arith, ap (count p) h) }

  served-InOrder :
      (hs : List (Happening services.Error framed.Frame)) (env : Env services)
      → allocated_ports env.events ≡ freed_ports env.events
      → InOrder (served hs env)
  served-InOrder hs env h = serve-InOrder hs _ (start-InOrder env h)

  -- On a server that starts with every port given back: after any history of accepted sockets and
  -- of turns of the tasks of all connections, each port was given out as often as the connections
  -- hold it, all together, and as it was given back.
  pub served_ports :
      (hs : List (Happening services.Error framed.Frame)) (env : Env services) (p : ℕ)
      → allocated_ports env.events ≡ freed_ports env.events
      → count p (allocated_ports (served hs env).env.events)
        ≡ total p (served hs env).connections + count p (freed_ports (served hs env).env.events)
  served_ports hs env p h = (served-InOrder hs env h).balance p
