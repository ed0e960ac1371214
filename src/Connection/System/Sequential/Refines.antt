-- ===== src/Connection/System/Sequential/Refines.antt =====
-- ingest/src/connection/mod.rs, `Connection::init`: the two tasks under any schedule, against the
-- exchanges of the sequential program.
use itgv.Base.{true, ℕ, suc, ◌≡◌, refl, sym, ap, subst, ◌∙◌, List, [], ◌∷◌, ◌++◌}
use itgv.Connection.Handler.{FrameCommand}
use itgv.Connection.Mpsc.{Mpsc, queues}
use itgv.Connection.Remote.Growth.{Grows, Grows-refl, Grows-trans}
use itgv.Connection.Remote.{Env, Event}
use itgv.Connection.Services.{Services}
use itgv.Connection.Socket.{Framed}
use itgv.Connection.State.{new}
use itgv.Connection.System.Account.{Account, run-Books}
use itgv.Connection.System.Lockstep.{Phase, asking, after, frame-Phase, conn-Phase}
use itgv.Connection.System.Refinement.{Queued, run-append, view, view-run, view-init}
use itgv.Connection.System.Safety.{reached, reached-Phase}
use itgv.Connection.System.Sequential.Growth.{exchanges_swap}
use itgv.Connection.System.Sequential.Turns.{Has-append, Has-round, make_first}
use itgv.Connection.System.Sequential.Rounds.{
  round, rounds, runs, state_of, round-state_of, rounds-state_of,
}
use itgv.Connection.System.Sequential.{Stage, serving, exchanges}
use itgv.Connection.System.{Task, frame_task, conn_task, init, run}
use itgv.Connection.Tasks.Growth.{on_command-Growing, after_answer-Growing}
use itgv.FtlCodec.{FtlCommand}

-- Nothing that was done is undone.
abbrev growth_account : (services : Services) → List Event → Account services
growth_account services base = record {
  Holds = λ es t. Grows base es;
  quiet = λ q g o h. Grows-trans h g;
  taken = λ c st env h. Grows-trans h (on_command-Growing services c st env);
  answered = λ k st r env h. Grows-trans h (after_answer-Growing services k true st env);
}

module _ (services : Services) (framed : Framed services.World) where
  abbrev Plain : Type 0
  Plain = Queued services framed

  -- Some further turns bring the tasks where the sequential program is after `n` exchanges.
  abbrev Completes : Stage services framed → ℕ → Plain → Type 0
  Completes x n s =
      (us : List Task) × (runs services framed us s
        ≡ state_of services framed (exchanges services framed n x))

  after-Completes :
      (x : Stage services framed) (n : ℕ) (t : Task) (s : Plain)
      → Phase services framed s
      → Completes x n s
      → Completes x (suc n) (after services framed t s)
  unfolding exchanges
  after-Completes x n t s p (us, e) =
      let (vs, f) =
        make_first services framed t (us ++ round) s p (Has-append t us round (Has-round t)) in
      (
        vs,
        f
            ∙ run-append services framed (queues FtlCommand) (queues FrameCommand) us round s
            ∙ ap (runs services framed round) e
            ∙ round-state_of services framed (exchanges services framed n x),
      )

  after-Phase :
      (t : Task) (s : Plain)
      → Phase services framed s
      → Phase services framed (after services framed t s)
  after-Phase frame_task s p = frame-Phase services framed s p
  after-Phase conn_task s p = conn-Phase services framed s p

  run-Completes :
      (x : Stage services framed) (n : ℕ) (ts : List Task) (s : Plain)
      → Phase services framed s
      → Completes x n s
      → (m : ℕ) × Completes x m (runs services framed ts s)
  unfolding run
  run-Completes x n [] s p c = (n, c)
  run-Completes x n (t ∷ ts) s p c =
      run-Completes x (suc n) ts (after services framed t s) (after-Phase t s p)
        (after-Completes x n t s p c)

  init-state_of :
      (env : Env services) (frame : framed.Frame)
      → init services framed (queues FtlCommand) (queues FrameCommand) env frame
        ≡ state_of services framed (serving env frame new)
  unfolding init
  init-state_of env frame = refl

module _ (services : Services) (framed : Framed services.World) (commands : Mpsc FtlCommand)
    (replies : Mpsc FrameCommand) where
  -- The connection after a schedule and a further one, as far as can be said of its channels.
  abbrev pub seen_after :
      List Task → List Task → Env services → framed.Frame → Queued services framed
  seen_after ts us env frame = view services framed commands replies (
      run services framed commands replies us
        (reached services framed commands replies ts env frame))

  -- What was done outside after a schedule was done first when a further one has run.
  pub seen_after-Grows :
      (ts us : List Task) (env : Env services) (frame : framed.Frame)
      → Grows
          (reached services framed commands replies ts env frame).env.events
          (seen_after ts us env frame).env.events
  seen_after-Grows ts us env frame =
      let s = reached services framed commands replies ts env frame in
      subst (λ (t : Queued services framed). Grows s.env.events t.env.events)
        (sym (view-run services framed commands replies us s))
        (run-Books services framed (growth_account services s.env.events) us
          (view services framed commands replies s)
          (reached-Phase services framed commands replies ts env frame) (Grows-refl s.env.events))

  -- The two tasks do what the sequential program does, which reads a command, reacts to it and
  -- writes the answer. However they are scheduled, some further turns of theirs bring them to where
  -- that program is after some number of exchanges, so that what they have done outside is the first
  -- part of what that program does; and for every number of exchanges there is a schedule that
  -- brings them there from the start.
  pub reached-exchanges :
      (ts : List Task) (n : ℕ) (env : Env services) (frame : framed.Frame)
      → ((us : List Task) × (m : ℕ) × (seen_after ts us env frame
            ≡ state_of services framed (exchanges services framed m (serving env frame new)))
          × Grows
              (reached services framed commands replies ts env frame).env.events
              (seen_after ts us env frame).env.events)
        × (seen_after [] (rounds n) env frame
            ≡ state_of services framed (exchanges services framed n (serving env frame new)))
  unfolding run exchanges
  reached-exchanges ts n env frame =
      let start =
        view-init services framed commands replies env frame
        ∙ init-state_of services framed env frame in
      let (m, completes) =
        run-Completes services framed (serving env frame new) 0 ts
          (state_of services framed (serving env frame new)) (asking env frame new refl)
          ([], refl) in
      (
        (
          completes.0,
          m,
          view-run services framed commands replies completes.0
                (reached services framed commands replies ts env frame)
              ∙ ap (runs services framed completes.0) (
                  view-run services framed commands replies ts _
                  ∙ ap (runs services framed ts) start)
              ∙ completes.1,
          seen_after-Grows ts completes.0 env frame,
        ),
        view-run services framed commands replies (rounds n)
              (init services framed commands replies env frame)
            ∙ ap (runs services framed (rounds n)) start
            ∙ rounds-state_of services framed n (serving env frame new),
      )

  -- However the tasks were scheduled, they can be brought past any number of exchanges.
  pub reached_past :
      (ts : List Task) (n : ℕ) (env : Env services) (frame : framed.Frame)
      → (us : List Task) × (m : ℕ) × (seen_after ts us env frame
          ≡ state_of services framed
              (exchanges services framed m (exchanges services framed n (serving env frame new))))
  reached_past ts n env frame =
      let (us, m, e, grows) = (reached-exchanges ts n env frame).0 in
      let s = reached services framed commands replies ts env frame in
      let x = exchanges services framed m (serving env frame new) in
      (
        us ++ rounds n,
        m,
        view-run services framed commands replies (us ++ rounds n) s
            ∙ run-append services framed (queues FtlCommand) (queues FrameCommand) us (rounds n) _
            ∙ ap (runs services framed (rounds n))
                (sym (view-run services framed commands replies us s) ∙ e)
            ∙ rounds-state_of services framed n x
            ∙ ap (state_of services framed)
                (exchanges_swap services framed n m (serving env frame new)),
      )
