-- ===== src/Connection/System/Sequential/Turns.antt =====
-- ingest/src/connection/mod.rs, `Connection::init`: the order of two turns.
use itgv.Base.{◌≡◌, ◌⊎◌, inl, inr, refl, sym, ap, ◌∙◌, none, List, [], ◌∷◌, ◌++◌}
use itgv.Connection.Handler.{FrameCommand}
use itgv.Connection.Mpsc.{queues}
use itgv.Connection.Services.{Services}
use itgv.Connection.Socket.{Framed}
use itgv.Connection.System.Lockstep.{Phase, after}
use itgv.Connection.System.Refinement.{Queued}
use itgv.Connection.System.Sequential.Rounds.{round, runs}
use itgv.Connection.System.Turns.{Phase-OneWaits, moves}
use itgv.Connection.System.{Task, frame_task, conn_task, run, or_stay}
use itgv.FtlCodec.{FtlCommand}

-- The task has a turn in the schedule.
abbrev pub Has : Task → List Task → Type 0
Has t [] = ⊥
Has t (u ∷ us) = (t ≡ u) ⊎ Has t us

pub Has-append : (t : Task) (us vs : List Task) → Has t vs → Has t (us ++ vs)
Has-append t [] vs h = h
Has-append t (u ∷ us) vs h = inr (Has-append t us vs h)

pub Has-round : (t : Task) → Has t round
Has-round frame_task = inl refl
Has-round conn_task = inr (inr (inl refl))

module _ (services : Services) (framed : Framed services.World) where
  abbrev Plain : Type 0
  Plain = Queued services framed

  stays : (t : Task) (s : Plain) → moves services framed t s ≡ none → after services framed t s ≡ s
  stays t s h = ap (or_stay services framed (queues FtlCommand) (queues FrameCommand) s) h

  other_waits :
      (s : Plain)
      → Phase services framed s
      → (after services framed frame_task s ≡ s) ⊎ (after services framed conn_task s ≡ s)
  other_waits s p = elim (Phase-OneWaits services framed p) [
    | inl h ↦ inl (stays frame_task s h)
    | inr h ↦ inr (stays conn_task s h)
  ]

  -- A turn that a schedule makes anyway can be made first: the two tasks take turns.
  pub make_first :
      (t : Task) (us : List Task) (s : Plain)
      → Phase services framed s
      → Has t us
      → (vs : List Task) × (runs services framed vs (after services framed t s)
          ≡ runs services framed us s)
  unfolding run
  make_first t [] s p h = absurd h
  make_first frame_task (frame_task ∷ us) s p h = (us, refl)
  make_first conn_task (conn_task ∷ us) s p h = (us, refl)
  make_first frame_task (conn_task ∷ us) s p (inl h) = cc
  make_first conn_task (frame_task ∷ us) s p (inl h) = cc
  make_first frame_task (conn_task ∷ us) s p (inr h) = elim (other_waits s p) [
    | inl e ↦ (conn_task ∷ us, ap (runs services framed (conn_task ∷ us)) e)
    | inr e ↦
        let (vs, f) = make_first frame_task us s p h in
        (vs, f ∙ ap (runs services framed us) (sym e))
  ]
  make_first conn_task (frame_task ∷ us) s p (inr h) = elim (other_waits s p) [
    | inl e ↦
        let (vs, f) = make_first conn_task us s p h in
        (vs, f ∙ ap (runs services framed us) (sym e))
    | inr e ↦ (frame_task ∷ us, ap (runs services framed (frame_task ∷ us)) e)
  ]
