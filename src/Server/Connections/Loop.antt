-- ===== src/Server/Connections/Loop.antt =====
-- ingest/src/main.rs: the accept loop among the turns of the connections' tasks.
use itgv.Base.{
  ℕ, zero, suc, ◌≡◌, refl, sym, subst, Option, none, some, List, [], ◌∷◌, ◌++◌, append_assoc,
  append-nil,
}
use itgv.Connection.Handler.{FrameCommand}
use itgv.Connection.Mpsc.{Mpsc}
use itgv.Connection.Remote.{Env}
use itgv.Connection.Services.{Services}
use itgv.Connection.Socket.{Framed}
use itgv.Connection.System.{Task, init, step, or_stay}
use itgv.FtlCodec.{FtlCommand}
use itgv.Server.Connections.{
  Happening, accepted, polled, Local, local, in_env, Server, step_at, spawned, serve,
}
use itgv.Server.Connections.Ports.{served}
use itgv.Server.{Came, Came-cons}
use itgv.Std.Result.{Result, ok, err}

-- What the listener gave.
abbrev pub results :
    {Error Socket : Type 0} → List (Happening Error Socket) → List (Result Error Socket)
results [] = []
results (accepted r ∷ hs) = r ∷ results hs
results (polled i t ∷ hs) = results hs

module _ (services : Services) (framed : Framed services.World) (commands : Mpsc FtlCommand)
    (replies : Mpsc FrameCommand) where
  abbrev Locals : Type 0
  Locals = List (Local services framed commands replies)

  -- A connection that `Connection::init` started on this socket, and that has only had turns of its
  -- own two tasks since, whatever the world was by then.
  pub data Lives (socket : framed.Frame) : Local services framed commands replies → Type 0 where
    begins :
        (env : Env services)
        → Lives socket (
            local services framed commands replies
              (init services framed commands replies env socket))
    turn :
        (t : Task) (env : Env services) (l : Local services framed commands replies)
        → Lives socket l
        → Lives socket (
            local services framed commands replies (
              or_stay services framed commands replies
                (in_env services framed commands replies env l)
                (step services framed commands replies t
                  (in_env services framed commands replies env l))))

  -- One connection for each socket, in this order.
  abbrev pub AllLive : List framed.Frame → Locals → Type 0
  AllLive [] [] = Unit {0}
  AllLive [] (l ∷ ls) = ⊥
  AllLive (socket ∷ sockets) [] = ⊥
  AllLive (socket ∷ sockets) (l ∷ ls) = Lives socket l × AllLive sockets ls

  AllLive-append :
      (sockets : List framed.Frame) (ls : Locals) (socket : framed.Frame)
      (l : Local services framed commands replies)
      → AllLive sockets ls
      → Lives socket l
      → AllLive (sockets ++ socket ∷ []) (ls ++ l ∷ [])
  AllLive-append [] [] socket l a b = (b, tt)
  AllLive-append [] (m ∷ ls) socket l a b = absurd a
  AllLive-append (s ∷ sockets) [] socket l a b = absurd a
  AllLive-append (s ∷ sockets) (m ∷ ls) socket l a b =
      (a.0, AllLive-append sockets ls socket l a.1 b)

  step_at-AllLive :
      (i : ℕ) (t : Task) (env : Env services) (sockets : List framed.Frame) (ls : Locals)
      → AllLive sockets ls
      → AllLive sockets (step_at services framed commands replies i t env ls).1
  unfolding step_at
  step_at-AllLive i t env [] [] a = tt
  step_at-AllLive i t env (s ∷ sockets) [] a = absurd a
  step_at-AllLive i t env [] (l ∷ ls) a = absurd a
  step_at-AllLive zero t env (s ∷ sockets) (l ∷ ls) a = (turn t env l a.0, a.1)
  step_at-AllLive (suc i) t env (s ∷ sockets) (l ∷ ls) a =
      (a.0, step_at-AllLive i t env sockets ls a.1)

  abbrev Histories : Type 0
  Histories = List (Happening services.Error framed.Frame)

  abbrev server :
      Env services → Locals → Option services.Error → Server services framed commands replies
  server env connections ended_by = record {
    env = env;
    connections = connections;
    ended_by = ended_by;
  }

  abbrev serves :
      Histories → Server services framed commands replies → Server services framed commands replies
  serves hs s = serve services framed commands replies hs s

  -- After the end nothing is served.
  serve_ended :
      (hs : Histories) (env : Env services) (ls : Locals) (e : services.Error)
      → serves hs (server env ls (some e)) ≡ server env ls (some e)
  unfolding serve
  serve_ended [] env ls e = refl
  serve_ended (h ∷ hs) env ls e = serve_ended hs env ls e

  -- `more` are the sockets that came since there were `sockets`.
  record Serves (sockets : List framed.Frame) (hs : Histories)
      (s : Server services framed commands replies) : Type 0 where
    more : List framed.Frame
    came : Came (results hs) more s.ended_by
    live : AllLive (sockets ++ more) s.connections

  serve-Serves :
      (hs : Histories) (env : Env services) (sockets : List framed.Frame) (ls : Locals)
      → AllLive sockets ls
      → Serves sockets hs (serves hs (server env ls none))
  unfolding serve spawned
  serve-Serves [] env sockets ls a = record {
    more = [];
    came = refl;
    live = subst (λ ss. AllLive ss ls) (sym (append-nil sockets)) a;
  }
  serve-Serves (accepted (ok socket) ∷ hs) env sockets ls a =
      let s =
        serve-Serves hs env (sockets ++ socket ∷ [])
          (ls ++ spawned services framed commands replies env socket ∷ [])
          (AllLive-append sockets ls socket _ a (begins env)) in
      record {
        more = socket ∷ s.more;
        came = Came-cons socket (results hs) s.more _ s.came;
        live =
            subst
              (λ ss.
                AllLive ss
                  (serves hs (
                    server env (ls ++ spawned services framed commands replies env socket ∷ [])
                      none)).connections)
              (append_assoc sockets (socket ∷ []) s.more) s.live;
      }
  serve-Serves (accepted (err e) ∷ hs) env sockets ls a =
      subst (Serves sockets (accepted (err e) ∷ hs)) (sym (serve_ended hs env ls e)) (record {
        more = [];
        came = (results hs, refl);
        live = subst (λ ss. AllLive ss ls) (sym (append-nil sockets)) a;
      })
  serve-Serves (polled i t ∷ hs) env sockets ls a =
      let moved = step_at services framed commands replies i t env ls in
      let s = serve-Serves hs moved.0 sockets moved.1 (step_at-AllLive i t env sockets ls a) in
      record { more = s.more; came = s.came; live = s.live }

  -- Whatever turns the tasks of the connections have in between: the sockets that came before the
  -- first error of the listener, in the order of arrival, have a connection each, and there is no
  -- other connection. Each of them was started on its socket by `Connection::init`, and has had no
  -- turns since but of its own two tasks. The server has ended with that error, and with none if
  -- there was none.
  pub served-AllLive :
      (hs : List (Happening services.Error framed.Frame)) (env : Env services)
      → (sockets : List framed.Frame) × Came
          (results hs)
          sockets
          (served services framed commands replies hs env).ended_by
        × AllLive sockets (served services framed commands replies hs env).connections
  served-AllLive hs env = let s = serve-Serves hs env [] [] tt in (s.more, s.came, s.live)
