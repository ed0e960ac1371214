-- ===== src/Connection/Socket.antt =====
-- The client's side of a connection: tokio-util's `Framed<TcpStream, FtlCodec>`, a parameter.
use itgv.Base.{◌≡◌, some}
use itgv.FtlCodec.{FtlCommand, FtlError, FtlCodec, decode}
use itgv.Std.Io.{Io}
use itgv.Std.Outcome.{ok}
use itgv.Std.Result.{Result}
use itgv.Std.Text.{Text}
use itgv.Std.Utf8.{Bytes}

-- What `frame.next().await` comes to: `Some(Ok(command))`, `Some(Err(e))`, `None`, or a panic of
-- the decoder.
pub data Next : Type 0 where
  command : FtlCommand → Next
  failed : FtlError → Next
  finished : Next
  panicked : Next

-- `Framed` over the world: `frame.next()` and `frame.send(item)`. The items that it hands out are
-- what the decoder makes of its buffer.
pub record Framed (World : Type 0) : Type 1 where
  pub Frame : Type 0
  pub next : Frame → Io World (record { frame : Frame; item : Next })
  pub send : Frame → Text → Io World (record { frame : Frame; result : Result FtlError (Unit {0}) })
  pub next_decodes :
      (f : Frame) (w : World) (c : FtlCommand)
      → (next f w).1.item ≡ command c
      → (self : FtlCodec) × (buf : Bytes) × ((decode self buf).result ≡ ok (some c))
