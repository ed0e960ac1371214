-- ===== src/Server/Connections/Exclusive.antt =====
-- ingest/src/main.rs and ingest/src/connection/mod.rs: which connection holds which port.
use itgv.Base.{ℕ, zero, suc, ◌+◌, ◌≤◌, ◌<◌, ◌≡◌, some, List, [], ◌∷◌, arith, count, get_elem?}
use native.Mathlib.Decide.{dec_lt}
use itgv.Connection.Handler.{FrameCommand}
use itgv.Connection.Mpsc.{Mpsc}
use itgv.Connection.Ports.{allocated_ports, freed_ports}
use itgv.Connection.Remote.{Env, Event, allocated, freed}
use itgv.Connection.Services.{Services}
use itgv.Connection.Socket.{Framed}
use itgv.Connection.Tasks.PortMoves.{held}
use itgv.FtlCodec.{FtlCommand}
use itgv.Server.Connections.{Happening, Local}
use itgv.Server.Connections.Ports.{total, served, served_ports}

-- What the WebRTC server promises, which keeps a port bound until it is deleted: a port that it
-- gives out has been given back as often as it was given out before.
abbrev pub GivesFree : List Event → Type 0
GivesFree [] = Unit {0}
GivesFree (allocated p ∷ es) =
    (count p (allocated_ports es) ≡ count p (freed_ports es)) × GivesFree es
GivesFree (_ ∷ es) = GivesFree es

GivesFree-le :
    (p : ℕ) (es : List Event)
    → GivesFree es
    → count p (allocated_ports es) ≤ count p (freed_ports es) + 1
GivesFree-le p [] g = omega arith
GivesFree-le p (allocated q ∷ es) g = ground (arith, GivesFree-le p es g.1)
GivesFree-le p (freed q ∷ es) g = ground (arith, GivesFree-le p es g)
GivesFree-le p (_ ∷ es) g = GivesFree-le p es g

module _ (services : Services) (framed : Framed services.World) (commands : Mpsc FtlCommand)
    (replies : Mpsc FrameCommand) where
  abbrev Locals : Type 0
  Locals = List (Local services framed commands replies)

  -- The connection with number `i` holds the port `p`.
  pub record HasPort (ls : Locals) (i p : ℕ) : Type 0 where
    pub conn : Local services framed commands replies
    pub is_there : get_elem? ls i ≡ some conn
    pub holds : held conn.conn ≡ p ∷ []

  later :
      (l : Local services framed commands replies) (ls : Locals) (i p : ℕ)
      → HasPort (l ∷ ls) (suc i) p
      → HasPort ls i p
  later l ls i p h = record { conn = h.conn; is_there = h.is_there; holds = h.holds }

  HasPort-le-total :
      (ls : Locals) (i p : ℕ) → HasPort ls i p → 1 ≤ total services framed commands replies p ls
  HasPort-le-total [] i p h = cc h.is_there
  HasPort-le-total (l ∷ ls) zero p h = ground (arith, h)
  HasPort-le-total (l ∷ ls) (suc i) p h = omega (arith, HasPort-le-total ls i p (later l ls i p h))

  -- Two connections that hold it hold it twice.
  HasPort_twice :
      (ls : Locals) (i j p : ℕ)
      → i < j
      → HasPort ls i p
      → HasPort ls j p
      → 2 ≤ total services framed commands replies p ls
  HasPort_twice [] i j p lt h k = cc h.is_there
  HasPort_twice (l ∷ ls) i zero p lt h k = absurd (omega arith)
  HasPort_twice (l ∷ ls) zero (suc j) p lt h k =
      let there = HasPort-le-total ls j p (later l ls j p k) in ground (arith, h, there)
  HasPort_twice (l ∷ ls) (suc i) (suc j) p lt h k =
      omega (arith, HasPort_twice ls i j p (omega arith) (later l ls i p h) (later l ls j p k))

  -- If the WebRTC server gives out only ports that were given back, and none was out at the start:
  -- after any history no two connections hold the same port.
  pub served_ports_exclusive :
      (hs : List (Happening services.Error framed.Frame)) (env : Env services) (i j p : ℕ)
      → allocated_ports env.events ≡ freed_ports env.events
      → GivesFree (served services framed commands replies hs env).env.events
      → HasPort (served services framed commands replies hs env).connections i p
      → HasPort (served services framed commands replies hs env).connections j p
      → i ≡ j
  served_ports_exclusive hs env i j p quiet free h k =
      let s = served services framed commands replies hs env in
      let some_left = GivesFree-le p s.env.events free in
      let balance = served_ports services framed commands replies hs env p quiet in
      elim (dec_lt i j) [
        | yes lt ↦
            absurd (omega (arith, some_left, balance, HasPort_twice s.connections i j p lt h k))
        | no nlt ↦ elim (dec_lt j i) [
          | yes gt ↦
              absurd (omega (arith, some_left, balance, HasPort_twice s.connections j i p gt k h))
          | no ngt ↦ omega arith
        ]
      ]
