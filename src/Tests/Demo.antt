-- ===== src/Tests/Demo.antt =====
-- Concrete services, a concrete socket and channels, to run a connection on.
use itgv.Base.{
  ℕ, suc, ◌+◌, ◌/◌, ◌%◌, ◌≡◌, refl, Option, none, some, List, [], ◌∷◌, ltb, true, if◌then◌else◌,
  arith,
}
use itgv.Connection.Handler.{FrameCommand}
use itgv.Connection.Mpsc.{Mpsc, queues}
use itgv.Connection.Remote.{Env}
use itgv.Connection.Services.{Services, Documented, is_hex_digit}
use itgv.Connection.Socket.{Next, command, failed, finished, panicked, Framed}
use itgv.Connection.System.{Task, frame_task, conn_task}
use itgv.FtlCodec.{FtlCommand, FtlError, new, decode}
use itgv.Std.Outcome.{Outcome, ok, err, panic}
use itgv.Std.Result.{Result}
use itgv.Std.Text.{Text, lit}
use itgv.Std.Utf8.{Bytes}

abbrev hex_digit : ℕ → ℕ
hex_digit d = if ltb d 10 then b'0' + d else b'W' + d

unfoldable pub hex : List ℕ → Text
hex [] = []
hex (b ∷ bs) = hex_digit (b / 16 % 16) ∷ hex_digit (b % 16) ∷ hex bs

-- The world counts the calls; the server gives out the ports from 9000 on.
abbrev pub services : Services
services = record {
  World = ℕ;
  Error = Text;
  env_var = λ name w. none;
  Response = ℕ;
  Value = ℕ;
  post = λ url w. (suc w, Result.ok (9000 + w));
  delete = λ url w. (suc w, Result.ok w);
  json = λ r w. (w, Result.ok r);
  get = λ key v. some v;
  as_u64 = λ v. some v;
  json_object = λ members. lit "{}";
  WebSocket = Unit {0};
  connect_async = λ url w. (suc w, Result.ok tt);
  send_text = λ socket text w. (suc w, Result.ok tt);
  read_next = λ socket w. (suc w, tt);
  sample = λ low high w. (suc w, low);
  hex_encode = hex;
}

-- The same services with a server that gives out no port.
abbrev pub services_without_ports : Services
services_without_ports = record services { post = λ url w. (suc w, Result.err (lit "down")) }

digit_is_hex : (d : ℕ) → is_hex_digit (hex_digit (d % 16)) ≡ true
digit_is_hex d = ground arith

pub services-Documented : Documented services
unfolding hex
services-Documented = record {
  sample_range = λ low high w h. (omega arith, h);
  hex_nil = refl;
  hex_cons = λ b bs. (_, _, refl, digit_is_hex (b / 16), digit_is_hex b);
}

abbrev pub item_of : Outcome FtlError (Option FtlCommand) → Next
item_of (ok none) = finished
item_of (ok (some c)) = command c
item_of (err e) = failed e
item_of panic = panicked

pub item_of-command :
    (r : Outcome FtlError (Option FtlCommand)) (c : FtlCommand)
    → item_of r ≡ command c
    → r ≡ ok (some c)
item_of-command (ok none) c h = cc
item_of-command (ok (some d)) c h = cc
item_of-command (err e) c h = cc
item_of-command panic c h = cc

-- A client that has sent all its bytes and reads everything.
abbrev pub framed : (World : Type 0) → Framed World
framed World = record {
  Frame = Bytes;
  next = λ f w. (w, record { frame = (decode new f).buf; item = item_of (decode new f).result });
  send = λ f item w. (w, record { frame = f; result = Result.ok tt });
  next_decodes = λ f w c h. (new, f, item_of-command (decode new f).result c h);
}

abbrev pub commands : Mpsc FtlCommand
commands = queues FtlCommand

abbrev pub replies : Mpsc FrameCommand
replies = queues FrameCommand

abbrev pub env : Env services
env = record { world = 0; events = [] }

-- The frame task reads a command and hands it over.
abbrev pub hands_over : List Task
hands_over = frame_task ∷ frame_task ∷ []

-- A command is read, handed over, taken and answered, and the answer is written.
abbrev pub one_round : List Task
one_round = frame_task ∷ frame_task ∷ conn_task ∷ conn_task ∷ frame_task ∷ []
