-- ===== src/Connection/Frame/Order.antt =====
-- ingest/src/connection/mod.rs, `handle_frame_command`: the order of the writes.
use itgv.Base.{
  ℕ, suc, ◌≡◌, refl, ap, ◌∙◌, true, false, Option, none, some, List, [], ◌∷◌, ◌++◌, reverse, take,
  length, length-append, if◌then◌else◌, ◌<◌, arith, Bool-cases, ◌⊎◌, inl, inr,
}
use mathlib.Core.List.{reverse-cons}
use itgv.Connection.Frame.{Written, send_item, pop, write_popped, handle_frame_command}
use itgv.Connection.Handler.{FrameCommand, send}
use itgv.Connection.Remote.{Env, Action, Event, wrote}
use itgv.Connection.Services.{Services}
use itgv.Connection.Socket.{Framed}
use itgv.Std.Text.{Text}

pop-append {ℓ} : {A : Type ℓ} (xs : List A) (y : A) → pop (xs ++ y ∷ []) ≡ some (xs, y)
unfolding pop
pop-append [] y = refl
pop-append (x ∷ xs) y = rw (pop-append xs y)

pub pop-reverse {ℓ} :
    {A : Type ℓ} (x : A) (xs : List A) → pop (reverse (x ∷ xs)) ≡ some (reverse xs, x)
pop-reverse x xs = rw (reverse-cons x xs) (pop-append (reverse xs) x)

length-reverse {ℓ} : {A : Type ℓ} (xs : List A) → length (reverse xs) ≡ length xs
length-reverse [] = refl
length-reverse (x ∷ xs) =
    omega
      (arith, ap length (reverse-cons x xs), length-append (reverse xs) (x ∷ []), length-reverse xs)

-- The events when the pieces have been written one by one after `es`.
abbrev pub written_after : List Event → List Text → List Event
written_after es [] = es
written_after es (item ∷ items) = written_after (wrote item ∷ es) items

-- Some pieces were written, and nothing else was done.
pub record Wrote (es es' : List Event) : Type 0 where
  pub items : List Text
  pub same : es' ≡ written_after es items

module _ (services : Services) (framed : Framed services.World) where
  -- Send the pieces one by one, up to the first that fails.
  unfoldable pub write_in_order :
      List Text → framed.Frame → Action services (Written services framed)
  write_in_order [] frame env = (env, record { frame = frame; done = true })
  write_in_order (item ∷ items) frame env =
      let (env', w) = send_item services framed item frame env in
      let next = write_in_order items w.frame env' in
      elim w.done [ true ↦ next | false ↦ (env', w) ]

  write_popped-write_in_order :
      (items : List Text) (frame : framed.Frame) (env : Env services)
      → write_popped services framed (length items) (reverse items) frame env
        ≡ write_in_order items frame env
  unfolding write_popped write_in_order
  write_popped-write_in_order [] frame env = refl
  write_popped-write_in_order (item ∷ items) frame env =
      let (env', w) = send_item services framed item frame env in
      rw (pop-reverse item items, write_popped)
        (ground (arith, write_popped-write_in_order items w.frame env'))

  -- The loop ends within one round for each piece, and does what sending the pieces one by one in
  -- the order given does, up to the first that fails.
  pub handle_frame_command-write_in_order :
      (items : List Text) (frame : framed.Frame) (env : Env services)
      → handle_frame_command services framed (some (send items)) frame env
        ≡ write_in_order items frame env
  unfolding handle_frame_command
  handle_frame_command-write_in_order items frame env =
      ap (λ n. write_popped services framed n (reverse items) frame env) (length-reverse items)
      ∙ write_popped-write_in_order items frame env

  pub handle_frame_command-none :
      (frame : framed.Frame) (env : Env services)
      → handle_frame_command services framed none frame env
        ≡ (env, record { frame = frame; done = false })
  unfolding handle_frame_command
  handle_frame_command-none frame env = refl

  pub send_item-events :
      (item : Text) (frame : framed.Frame) (env : Env services)
      → (send_item services framed item frame env).0.events ≡ (
          if (send_item services framed item frame env).1.done
          then wrote item ∷ env.events
          else env.events)
  unfolding send_item
  send_item-events item frame env = ground arith

  write_in_order-events :
      (items : List Text) (frame : framed.Frame) (env : Env services)
      → (n : ℕ) × ((write_in_order items frame env).0.events
          ≡ written_after env.events (take n items))
        × ((((write_in_order items frame env).1.done ≡ true) × (n ≡ length items))
            ⊎ (((write_in_order items frame env).1.done ≡ false) × (n < length items)))
  unfolding write_in_order
  write_in_order-events [] frame env = (0, refl, inl (refl, refl))
  write_in_order-events (item ∷ items) frame env =
      let (env', w) = send_item services framed item frame env in
      let sent = send_item-events item frame env in
      elim (Bool-cases w.done) [
        | inl done ↦
            let (n, e, either) = write_in_order-events items w.frame env' in
            (suc n, ground (arith, e, sent, done), ground (arith, either))
        | inr failed ↦ (0, ground (arith, sent), inr (ground arith, omega arith))
      ]

  -- What answering with some pieces writes to the client is a first part of the pieces, in their
  -- order: all of them if `handle_frame_command` succeeds, and otherwise fewer.
  pub handle_frame_command-events :
      (items : List Text) (frame : framed.Frame) (env : Env services)
      → (n : ℕ) × ((handle_frame_command services framed (some (send items)) frame env).0.events
          ≡ written_after env.events (take n items))
        × ((((handle_frame_command services framed (some (send items)) frame env).1.done ≡ true)
              × (n ≡ length items))
            ⊎ (((handle_frame_command services framed (some (send items)) frame env).1.done ≡ false)
                × (n < length items)))
  handle_frame_command-events items frame env =
      rw (handle_frame_command-write_in_order items frame env)
        (write_in_order-events items frame env)

  pub handle_frame_command-Wrote :
      (c : Option FrameCommand) (frame : framed.Frame) (env : Env services)
      → Wrote env.events (handle_frame_command services framed c frame env).0.events
  handle_frame_command-Wrote (some (send items)) frame env =
      let (n, e, _) = handle_frame_command-events items frame env in
      record { items = take n items; same = e }
  handle_frame_command-Wrote none frame env = record {
    items = [];
    same =
        ap (λ (r : Env services × Written services framed). r.0.events)
          (handle_frame_command-none frame env);
  }
