-- ===== src/Connection/System/Ports.antt =====
-- ingest/src/connection/mod.rs, `Connection::init`: the port of a connection over its whole life.
use itgv.Base.{◌≡◌, sym, ap, ◌∙◌, List, ◌++◌}
use itgv.Connection.Handler.{FrameCommand}
use itgv.Connection.Mpsc.{Mpsc}
use itgv.Connection.Ports.{allocated_ports, freed_ports, Quiet}
use itgv.Connection.Remote.{Env, Event}
use itgv.Connection.Services.{Services}
use itgv.Connection.Socket.{Framed}
use itgv.Connection.State.{new}
use itgv.Connection.System.Account.{Account, reached-Holds}
use itgv.Connection.System.Safety.{reached}
use itgv.Connection.System.{Task}
use itgv.Connection.Tasks.Ledger.{Ledger, on_command-Ledger, after_answer-Ledger}
use itgv.Connection.Tasks.PortMoves.{held}
use itgv.Connection.Tasks.{ConnTask, receiving}
use itgv.FtlCodec.{FtlCommand}

Quiet-Ledger : {es es' : List Event} {t : ConnTask} → Quiet es es' → Ledger es t → Ledger es' t
Quiet-Ledger {t} q l = record {
  balance = q.same_allocated ∙ l.balance ∙ ap (λ fs. held t ++ fs) (sym q.same_freed);
  refusing = l.refusing;
}

abbrev port_account : (services : Services) → Account services
port_account services = record {
  Holds = Ledger;
  quiet = λ q g o l. Quiet-Ledger q l;
  taken = on_command-Ledger services;
  answered = after_answer-Ledger services;
}

-- A connection starts without a port.
start-Ledger : (es : List Event) → allocated_ports es ≡ freed_ports es → Ledger es (receiving new)
unfolding new
start-Ledger es h = record { balance = h; refusing = tt }

module _ (services : Services) (framed : Framed services.World) (commands : Mpsc FtlCommand)
    (replies : Mpsc FrameCommand) where
  -- On a connection that starts with every port given back: after any schedule the ports that
  -- `allocate_port` returned are the one that the command task holds, if any, and those that
  -- `free_port` was called with, in this order.
  pub reached_ports :
      (ts : List Task) (env : Env services) (frame : framed.Frame)
      → allocated_ports env.events ≡ freed_ports env.events
      → allocated_ports (reached services framed commands replies ts env frame).env.events
        ≡ held (reached services framed commands replies ts env frame).conn
          ++ freed_ports (reached services framed commands replies ts env frame).env.events
  reached_ports ts env frame h =
      (reached-Holds services framed commands replies (port_account services) ts env frame
        (start-Ledger env.events h)).balance
