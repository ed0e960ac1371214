-- ===== src/Connection/System/Safety.antt =====
-- ingest/src/connection/mod.rs, `Connection::init`: the two tasks after any schedule.
use itgv.Base.{
  ◌+◌, ◌≤◌, ◌≡◌, ◌⊎◌, inl, inr, refl, sym, ap, subst, ◌∙◌, Option, none, some, List, length,
}
use itgv.Connection.Handler.{FrameCommand}
use itgv.Connection.Mpsc.{Sent, sent, full, closed, Mpsc, queues, map_sent, queue_send}
use itgv.Connection.Remote.{Env}
use itgv.Connection.Services.{Services}
use itgv.Connection.Socket.{Framed}
use itgv.Connection.State.{ConnectionState}
use itgv.Connection.System.Lockstep.{Phase, run-Phase, init-Phase}
use itgv.Connection.System.Refinement.{Queued, map_option, view, view-step, view-run, view-init}
use itgv.Connection.System.Turns.{
  Phase-under_way, Phase-OneWaits, Phase-answering, Phase-stuck, IsOver, IsHung,
}
use itgv.Connection.System.{System, Task, frame_task, conn_task, init, run, step}
use itgv.Connection.Tasks.{answering, Then}
use itgv.FtlCodec.{FtlCommand}

map_option-none {ℓ κ} :
    {A : Type ℓ} {B : Type κ} (f : A → B) (o : Option A) → map_option f o ≡ none → o ≡ none
map_option-none f none h = refl
map_option-none f (some a) h = cc

map_sent-sent :
    {C D : Type 0} (f : C → D) (r : Sent C) {d : D} → map_sent f r ≡ sent d → (c : C) × (r ≡ sent c)
map_sent-sent f (sent c) h = (c, refl)
map_sent-sent f full h = cc
map_sent-sent f closed h = cc

module _ (services : Services) (framed : Framed services.World) (commands : Mpsc FtlCommand)
    (replies : Mpsc FrameCommand) where
  -- The connection after a schedule.
  abbrev pub reached :
      List Task → Env services → framed.Frame → System services framed commands replies
  reached ts env frame =
      run services framed commands replies ts (init services framed commands replies env frame)

  abbrev seen : System services framed commands replies → Queued services framed
  seen = view services framed commands replies

  pub reached-Phase :
      (ts : List Task) (env : Env services) (frame : framed.Frame)
      → Phase services framed (seen (reached ts env frame))
  reached-Phase ts env frame =
      subst (Phase services framed)
        (sym (
          view-run services framed commands replies ts _
          ∙ ap (run services framed (queues FtlCommand) (queues FrameCommand) ts)
              (view-init services framed commands replies env frame)))
        (run-Phase services framed ts _ (init-Phase services framed env frame))

  pub waits :
      (t : Task) (s : System services framed commands replies)
      → step services framed (queues FtlCommand) (queues FrameCommand) t (seen s) ≡ none
      → step services framed commands replies t s ≡ none
  waits t s h =
      map_option-none seen (step services framed commands replies t s)
        (sym (view-step services framed commands replies t s) ∙ h)

  moved :
      (t : Task) (s : System services framed commands replies)
      → step services framed commands replies t s ≡ none
      → step services framed (queues FtlCommand) (queues FrameCommand) t (seen s) ≡ none
  moved t s h = view-step services framed commands replies t s ∙ ap (map_option seen) h

  -- After any schedule one message at most is in the two channels together, and at least one of the
  -- two tasks has no step.
  pub reached_lockstep :
      (ts : List Task) (env : Env services) (frame : framed.Frame)
      → let s = reached ts env frame in
        (length (commands.view s.to_conn).messages + length (replies.view s.to_frame).messages ≤ 1)
        × ((step services framed commands replies frame_task s ≡ none)
            ⊎ (step services framed commands replies conn_task s ≡ none))
  reached_lockstep ts env frame = (
    Phase-under_way services framed (reached-Phase ts env frame),
    one (Phase-OneWaits services framed (reached-Phase ts env frame)),
  )
    where
      one :
          (step services framed
                (queues FtlCommand)
                (queues FrameCommand)
                frame_task
                (seen (reached ts env frame))
              ≡ none)
            ⊎ (step services framed
                  (queues FtlCommand)
                  (queues FrameCommand)
                  conn_task
                  (seen (reached ts env frame))
                ≡ none)
          → (step services framed commands replies frame_task (reached ts env frame) ≡ none)
            ⊎ (step services framed commands replies conn_task (reached ts env frame) ≡ none)
      one (inl h) = inl (waits frame_task _ h)
      one (inr h) = inr (waits conn_task _ h)

  -- After any schedule an answer that the command task wants to send goes through at once: the
  -- channel has room and its receiver is still there, so `conn_send.send` neither waits nor
  -- fails.
  pub reached_answer-sent :
      (ts : List Task) (env : Env services) (frame : framed.Frame) (st : ConnectionState)
      (r : FrameCommand) (then_do : Then)
      → (reached ts env frame).conn ≡ answering st r then_do
      → (ch : replies.Chan) × (replies.send (reached ts env frame).to_frame r ≡ sent ch)
  reached_answer-sent ts env frame st r then_do h =
      map_sent-sent replies.view (replies.send s.to_frame r) (
        replies.view-send s.to_frame r
        ∙ ap (λ q. queue_send q r) (Phase-answering services framed (reached-Phase ts env frame) h))
    where
      s : System services framed commands replies
      s = reached ts env frame

  -- If after some schedule neither task has a step, both have returned, or the connection hangs:
  -- the frame task waits for instructions and the command task for a command, with the state that
  -- it was left in by an attribute "Video" or "Audio" with a value other than "true" and "false".
  pub reached_stuck :
      (ts : List Task) (env : Env services) (frame : framed.Frame)
      → step services framed commands replies frame_task (reached ts env frame) ≡ none
      → step services framed commands replies conn_task (reached ts env frame) ≡ none
      → IsOver services framed (reached ts env frame).frames (reached ts env frame).conn
        ⊎ IsHung services framed (reached ts env frame).frames (reached ts env frame).conn
  reached_stuck ts env frame f c =
      Phase-stuck services framed (reached-Phase ts env frame) (moved frame_task _ f)
        (moved conn_task _ c)
