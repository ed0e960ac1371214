-- ===== src/Connection/Handshake/Client.antt =====
-- ingest/src/connection/mod.rs and ingest/src/ftl_codec.rs: one exchange with a client that has sent
-- its bytes and reads all answers.
use itgv.Base.{◌≡◌, ◌≢◌, refl, sym, ap, subst, ◌∙◌, true, some, List, [], ◌∷◌, ◌++◌}
use itgv.Connection.Frame.Order.{write_in_order, written_after, handle_frame_command-write_in_order}
use itgv.Connection.Frame.{send_item}
use itgv.Connection.Handler.{send}
use itgv.Connection.Handshake.Heard.{heard, concat, heard-written_after}
use itgv.Connection.Remote.{Env, call, wrote}
use itgv.Connection.Services.{Services}
use itgv.Connection.Socket.{command, Framed}
use itgv.Connection.State.{ConnectionState}
use itgv.Connection.System.Sequential.{Stage, serving, written, write, finish, handle, exchange}
use itgv.Connection.Tasks.{
  Then, continue, connected, give_up, ConnTask, answering, on_command, after_answer,
}
use itgv.FtlCodec.{FtlCommand, new, decode}
use itgv.Std.Outcome.{ok}
use itgv.Std.Result.{Result}
use itgv.Std.Text.{Text}
use itgv.Std.Utf8.{Bytes, as_bytes}

-- A client whose bytes have all arrived, and that stays. `next` hands out what the decoder makes of
-- the bytes not read yet, and leaves those behind it; every `send` goes through, and reads nothing.
pub record LiveClient {World : Type 0} (framed : Framed World) : Type 0 where
  pub unread : framed.Frame → Bytes
  pub next_reads :
      (f : framed.Frame) (w : World) (c : FtlCommand)
      → (decode new (unread f)).result ≡ ok (some c)
      → ((framed.next f w).1.item ≡ command c)
        × (unread (framed.next f w).1.frame ≡ (decode new (unread f)).buf)
  pub send_works :
      (f : framed.Frame) (item : Text) (w : World)
      → ((framed.send f item w).1.result ≡ Result.ok tt)
        × (unread (framed.send f item w).1.frame ≡ unread f)

module _ (services : Services) where
  -- The reaction to a command: an answer, with the state after it.
  pub record Reacts (c : FtlCommand) (st : ConnectionState) (env : Env services)
      (st' : ConnectionState) (pieces : List Text) : Type 0 where
    pub later : Env services
    pub then_do : Then
    pub goes_on : then_do ≢ give_up
    pub answers : on_command services (some c) st env ≡ (later, answering st' (send pieces) then_do)
    pub nothing_sent : heard later.events ≡ heard env.events

module _ (services : Services) (framed : Framed services.World) (client : LiveClient framed) where
  -- All pieces are written.
  record Writes (items : List Text) (frame : framed.Frame) (env : Env services) : Type 0 where
    done : (write_in_order services framed items frame env).1.done ≡ true
    same_unread :
        client.unread (write_in_order services framed items frame env).1.frame ≡ client.unread frame
    events :
        (write_in_order services framed items frame env).0.events ≡ written_after env.events items

  record Sends (item : Text) (frame : framed.Frame) (env : Env services) : Type 0 where
    done : (send_item services framed item frame env).1.done ≡ true
    same_unread :
        client.unread (send_item services framed item frame env).1.frame ≡ client.unread frame
    events : (send_item services framed item frame env).0.events ≡ wrote item ∷ env.events

  send_item-Sends : (item : Text) (frame : framed.Frame) (env : Env services) → Sends item frame env
  unfolding send_item
  send_item-Sends item frame env =
      let (works, same) = client.send_works frame item env.world in
      record { done = rw works; same_unread = rw works same; events = rw works }

  write_in_order-Writes :
      (items : List Text) (frame : framed.Frame) (env : Env services) → Writes items frame env
  unfolding write_in_order
  write_in_order-Writes [] frame env = record { done = refl; same_unread = refl; events = refl }
  write_in_order-Writes (item ∷ items) frame env =
      let (env', w) = send_item services framed item frame env in
      let first = send_item-Sends item frame env in
      let rest = write_in_order-Writes items w.frame env' in
      record {
        done = rw (first.done, write_in_order) rest.done;
        same_unread = rw (first.done, write_in_order) (rest.same_unread ∙ first.same_unread);
        events =
            rw (first.done, write_in_order)
              (rest.events ∙ ap (λ es. written_after es items) first.events);
      }

  -- The connection waits for the next command, with the state `st`; since `env` the client was sent
  -- `text`, and of its own bytes `tail` are not read yet.
  pub record Serves (x : Stage services framed) (env : Env services) (st : ConnectionState)
      (text : Text) (tail : Bytes) : Type 0 where
    pub now : Env services
    pub frame : framed.Frame
    pub waits : x ≡ serving now frame st
    pub still_unread : client.unread frame ≡ tail
    pub sent : heard now.events ≡ heard env.events ++ as_bytes text

  after_answer-heard :
      (then_do : Then) (st : ConnectionState) (env : Env services)
      → heard (after_answer services then_do true st env).0.events ≡ heard env.events
  unfolding after_answer
  after_answer-heard continue st env = refl
  after_answer-heard connected st env = refl
  after_answer-heard give_up st env = refl

  written-Serves :
      (env now : Env services) (frame : framed.Frame) (st : ConnectionState) (then_do : Then)
      (text : Text) (tail : Bytes)
      → then_do ≢ give_up
      → client.unread frame ≡ tail
      → heard now.events ≡ heard env.events ++ as_bytes text
      → Serves (written services framed now frame st then_do true) env st text tail
  written-Serves env now frame st continue text tail g u h = record {
    now = now;
    frame = frame;
    waits = refl;
    still_unread = u;
    sent = h;
  }
  written-Serves env now frame st connected text tail g u h = record {
    now = now;
    frame = frame;
    waits = refl;
    still_unread = u;
    sent = h;
  }
  written-Serves env now frame st give_up text tail g u h = absurd (g refl)

  write-Serves :
      (env now : Env services) (frame : framed.Frame) (st : ConnectionState) (pieces : List Text)
      (then_do : Then) (tail : Bytes)
      → then_do ≢ give_up
      → client.unread frame ≡ tail
      → heard now.events ≡ heard env.events
      → Serves
          (write services framed now frame st (send pieces) then_do)
          env
          st
          (concat pieces)
          tail
  write-Serves env now frame st pieces then_do tail g u h =
      let done = write_in_order-Writes pieces frame now in
      rw (handle_frame_command-write_in_order services framed pieces frame now) (
        rw done.done (
          written-Serves env (write_in_order services framed pieces frame now).0
            (write_in_order services framed pieces frame now).1.frame st then_do (concat pieces)
            tail g (done.same_unread ∙ u)
            (ap heard done.events
              ∙ heard-written_after now.events pieces
              ∙ ap (λ b. b ++ as_bytes (concat pieces)) h)))

  -- One exchange with a client whose next bytes are a command that is answered.
  pub exchange-Serves :
      (env : Env services) (frame : framed.Frame) (st st' : ConnectionState) (c : FtlCommand)
      (pieces : List Text) (tail : Bytes)
      → (decode new (client.unread frame)).result ≡ ok (some c)
      → (decode new (client.unread frame)).buf ≡ tail
      → Reacts services c st (call services (framed.next frame) env).0 st' pieces
      → Serves (exchange services framed (serving env frame st)) env st' (concat pieces) tail
  unfolding exchange
  exchange-Serves env frame st st' c pieces tail reads rest r =
      let (env', got) = call services (framed.next frame) env in
      let (is_command, unread) = client.next_reads frame env.world c reads in
      subst (λ n. Serves (handle services framed env' got.frame st n) env st' (concat pieces) tail)
        (sym is_command)
        (subst
          (λ (p : Env services × ConnTask).
            Serves (finish services framed p.0 got.frame p.1) env st' (concat pieces) tail)
          (sym r.answers)
          (write-Serves env (after_answer services r.then_do true st' r.later).0 got.frame st'
            pieces r.then_do tail r.goes_on (unread ∙ rest)
            (after_answer-heard r.then_do st' r.later ∙ r.nothing_sent)))
