-- ===== src/Connection/System/Streams.antt =====
-- ingest/src/connection/mod.rs, `Connection::init`: the streams that a connection announces and
-- ends over its whole life.
use itgv.Base.{refl, arith, List}
use itgv.Connection.Handler.{FrameCommand}
use itgv.Connection.Mpsc.{Mpsc}
use itgv.Connection.Ports.{started_keys, ended_keys, Quiet}
use itgv.Connection.Remote.{Env, Event}
use itgv.Connection.Services.{Services}
use itgv.Connection.Socket.{Framed}
use itgv.Connection.State.{new}
use itgv.Connection.System.Account.{Account, reached-Holds}
use itgv.Connection.System.Safety.{reached}
use itgv.Connection.System.{Task}
use itgv.Connection.Tasks.Streams.{
  Before, Streams, Open-same, on_command-Streams, after_answer-Streams,
}
use itgv.Connection.Tasks.{ConnTask, receiving, answering, conn_done}
use itgv.FtlCodec.{FtlCommand}

Quiet-Streams :
    (b : Before) {es es' : List Event} (t : ConnTask)
    → Quiet es es'
    → Streams b es t
    → Streams b es' t
Quiet-Streams b (receiving st) q o = Open-same b st.stream_key _ _ q.same_started q.same_ended o
Quiet-Streams b (answering st r k) q o = Open-same b st.stream_key _ _ q.same_started q.same_ended o
Quiet-Streams b conn_done q c = ground (arith, q)

abbrev stream_account : (services : Services) → Before → Account services
stream_account services b = record {
  Holds = Streams b;
  quiet = λ q g w o. Quiet-Streams b _ q o;
  taken = on_command-Streams services b;
  answered = after_answer-Streams services b;
}

-- What was announced and ended before the connection began.
abbrev pub so_far : List Event → Before
so_far es = record { started = started_keys es; ended = ended_keys es }

start-Streams : (es : List Event) → Streams (so_far es) es (receiving new)
unfolding new
start-Streams es = record { none_ended = refl; last = refl }

module _ (services : Services) (framed : Framed services.World) (commands : Mpsc FtlCommand)
    (replies : Mpsc FrameCommand) where
  -- After any schedule: as long as the command task has not returned, no end of a stream was told,
  -- and the stream key in its state is the one that it announced last, none if it announced none;
  -- once it has returned, at most one end was told, and that of the key announced last.
  pub reached-Streams :
      (ts : List Task) (env : Env services) (frame : framed.Frame)
      → Streams
          (so_far env.events)
          (reached services framed commands replies ts env frame).env.events
          (reached services framed commands replies ts env frame).conn
  reached-Streams ts env frame =
      reached-Holds services framed commands replies (stream_account services (so_far env.events))
        ts env frame (start-Streams env.events)
