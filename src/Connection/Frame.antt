-- ===== src/Connection/Frame.antt =====
-- ingest/src/connection/mod.rs: `handle_frame_command`, the writing half of the frame task.
pub mod Order
use itgv.Base.{ℕ, zero, suc, Bool, true, false, Option, none, some, List, [], ◌∷◌, reverse, length}
use itgv.Connection.Handler.{FrameCommand, send}
use itgv.Connection.Remote.{Env, Action, Event, emit, call, wrote}
use itgv.Connection.Services.{Services}
use itgv.Connection.Socket.{Framed}
use itgv.FtlCodec.{FtlError}
use itgv.Std.Io.{Io, pure, ◌>>=◌, ◌>>◌}
use itgv.Std.Result.{Result, ok, err}
use itgv.Std.Text.{Text}

-- `Vec::pop`: the last element, and what is left of the vector.
unfoldable pub pop {ℓ} : {A : Type ℓ} → List A → Option (List A × A)
pop [] = none
pop (x ∷ xs) = elim (pop xs) [ none ↦ some ([], x) | some (rest, y) ↦ some (x ∷ rest, y) ]

module _ (services : Services) (framed : Framed services.World) where
  open framed use {Frame}

  -- The socket after the writes, and whether they all went through.
  pub record Written : Type 0 where
    pub frame : Frame
    pub done : Bool

  abbrev note_sent :
      Text
      → record { frame : Frame; result : Result FtlError (Unit {0}) }
      → Result FtlError (Unit {0})
      → Action services Written
  note_sent item r (ok _) = do
    emit services (wrote item)
    pure (record { frame = r.frame; done = true })
  note_sent item r (err _) = pure (record { frame = r.frame; done = false })

  -- `frame.send(item.clone()).await`
  unfoldable pub send_item : Text → Frame → Action services Written
  send_item item frame = do r ← call services (framed.send frame item); note_sent item r r.result

  -- The `while` loop. Each round pops one piece, so as many rounds as there are pieces end it.
  unfoldable pub write_popped : ℕ → List Text → Frame → Action services Written
  write_popped zero d frame = pure (record { frame = frame; done = true })
  write_popped (suc rounds) d frame = elim (pop d) [
    | none ↦ pure (record { frame = frame; done = true })
    | some (rest, item) ↦ λ env.
        let (env', w) = send_item item frame env in
        let next = write_popped rounds rest w.frame env' in
        elim w.done [ true ↦ next | false ↦ (env', w) ]
  ]

  unfoldable pub handle_frame_command : Option FrameCommand → Frame → Action services Written
  unfolding write_popped pop
  handle_frame_command (some (send pieces)) frame =
      let d = reverse pieces in write_popped (length d) d frame
  handle_frame_command none frame = pure (record { frame = frame; done = false })
