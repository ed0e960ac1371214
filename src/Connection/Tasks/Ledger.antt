-- ===== src/Connection/Tasks/Ledger.antt =====
-- ingest/src/connection/mod.rs, the command task of `init`: the ports given out, against those held and
-- given back.
use itgv.Base.{◌≡◌, true, Option, List, ◌++◌}
use itgv.Connection.Handler.{FrameCommand}
use itgv.Connection.Ports.{allocated_ports, freed_ports}
use itgv.Connection.Remote.{Env, Event}
use itgv.Connection.Services.{Services}
use itgv.Connection.State.{ConnectionState}
use itgv.Connection.Tasks.{ConnTask, receiving, answering, Then, on_command, after_answer}
use itgv.Connection.Tasks.PortMoves.{
  held, NoPort, PortMove-balance, on_command-PortMove, on_command-NoPort, after_answer-PortMove,
  after_answer-NoPort,
}
use itgv.FtlCodec.{FtlCommand}

pub record Ledger (es : List Event) (task : ConnTask) : Type 0 where
  pub balance : allocated_ports es ≡ held task ++ freed_ports es
  pub refusing : NoPort task

module _ (services : Services) where
  -- If the ports given out are those given back and the one that the waiting command task holds,
  -- then so it is after the task has taken any command or the end of the channel, whatever the
  -- services answer; and the task is about to give up only without a port.
  pub on_command-Ledger :
      (c : Option FtlCommand) (st : ConnectionState) (env : Env services)
      → Ledger env.events (receiving st)
      → Ledger (on_command services c st env).0.events (on_command services c st env).1
  on_command-Ledger c st env l = record {
    balance = PortMove-balance (on_command-PortMove services c st env) l.balance;
    refusing = on_command-NoPort services c st env;
  }

  pub after_answer-Ledger :
      (then_do : Then) (st : ConnectionState) (r : FrameCommand) (env : Env services)
      → Ledger env.events (answering st r then_do)
      → Ledger
          (after_answer services then_do true st env).0.events
          (after_answer services then_do true st env).1
  after_answer-Ledger then_do st r env l = record {
    balance =
        PortMove-balance (after_answer-PortMove services then_do st r env l.refusing) l.balance;
    refusing = after_answer-NoPort services then_do st env;
  }
