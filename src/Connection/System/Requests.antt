-- ===== src/Connection/System/Requests.antt =====
-- ingest/src/connection/mod.rs, `Connection::init`: the requests of a connection over its whole life.
use itgv.Base.{List, true, subst, sym}
use itgv.Connection.Frame.Order.{Wrote}
use itgv.Connection.Mpsc.{Mpsc}
use itgv.Connection.Remote.Log.{Log, written_after-Log}
use itgv.Connection.Remote.{Event}
use itgv.Connection.Services.{Services}
use itgv.Connection.System.Account.{Account}
use itgv.Connection.Tasks.Log.{on_command-Log, after_answer-Log}

module _ (services : Services) where
  Wrote-Log :
      (base es es' : List Event) → Wrote es es' → Log services base es → Log services base es'
  Wrote-Log base es es' o l =
      subst (Log services base) (sym o.same) (written_after-Log services base o.items es l)

  abbrev log_account : List Event → Account services
  log_account base = record {
    Holds = λ es t. Log services base es;
    quiet = λ {es} {es'} q g o l. Wrote-Log base es es' o l;
    taken = λ c st env l. on_command-Log services base c st env l;
    answered = λ k st r env l. after_answer-Log services base k true st env l;
  }
