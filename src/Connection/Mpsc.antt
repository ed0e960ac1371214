-- ===== src/Connection/Mpsc.antt =====
-- tokio's `mpsc` channels, which the two tasks of a connection talk through: a parameter, with its
-- documented behaviour as laws.
use itgv.Base.{ℕ, ◌≡◌, refl, Bool, true, false, List, [], ◌∷◌, ◌++◌, length, leb, if◌then◌else◌}

-- What a send comes to: the message is in, there is no room yet, or no receiver is left.
pub data Sent (C : Type 0) : Type 0 where
  sent : C → Sent C
  full : Sent C
  closed : Sent C

-- What a receive comes to: a message, none yet, or none ever, since the senders are gone.
pub data Received (A C : Type 0) : Type 0 where
  got : A → C → Received A C
  waiting : Received A C
  ended : Received A C

-- What can be said of a channel: the messages inside, the oldest first, its bound, and whether
-- each end is still there.
pub record Queue (A : Type 0) : Type 0 where
  pub messages : List A
  pub capacity : ℕ
  pub sender : Bool
  pub receiver : Bool

-- The operations on such a description.
module _ {A : Type 0} where
  abbrev pub queue_send : Queue A → A → Sent (Queue A)
  queue_send q a =
      if q.receiver
      then (if leb q.capacity (length q.messages)
          then full
          else sent (record q { messages = q.messages ++ a ∷ [] }))
      else closed

  abbrev no_message : Bool → Received A (Queue A)
  no_message true = waiting
  no_message false = ended

  abbrev queue_recv_from : Queue A → List A → Received A (Queue A)
  queue_recv_from q [] = no_message q.sender
  queue_recv_from q (a ∷ rest) = got a (record q { messages = rest })

  abbrev pub queue_recv : Queue A → Received A (Queue A)
  queue_recv q = queue_recv_from q q.messages

abbrev pub map_sent : {C D : Type 0} → (C → D) → Sent C → Sent D
map_sent f (sent c) = sent (f c)
map_sent f full = full
map_sent f closed = closed

abbrev pub map_received : {A C D : Type 0} → (C → D) → Received A C → Received A D
map_received f (got a c) = got a (f c)
map_received f waiting = waiting
map_received f ended = ended

-- A bounded channel of messages `A`. A send waits while the channel is full and fails once the
-- receiver is dropped; a receive takes the oldest message, waits while there is none, and yields
-- `None` once the sender is dropped too.
pub record Mpsc (A : Type 0) : Type 1 where
  pub Chan : Type 0
  pub channel : ℕ → Chan
  pub send : Chan → A → Sent Chan
  pub recv : Chan → Received A Chan
  pub drop_sender : Chan → Chan
  pub drop_receiver : Chan → Chan
  pub view : Chan → Queue A
  pub view-channel :
      (n : ℕ)
      → view (channel n) ≡ record { messages = []; capacity = n; sender = true; receiver = true }
  pub view-send : (c : Chan) (a : A) → map_sent view (send c a) ≡ queue_send (view c) a
  pub view-recv : (c : Chan) → map_received view (recv c) ≡ queue_recv (view c)
  pub view-drop_sender : (c : Chan) → view (drop_sender c) ≡ record (view c) { sender = false }
  pub view-drop_receiver :
      (c : Chan) → view (drop_receiver c) ≡ record (view c) { receiver = false }

pub map_sent_id : {C : Type 0} (r : Sent C) → map_sent (λ c. c) r ≡ r
map_sent_id (sent c) = refl
map_sent_id full = refl
map_sent_id closed = refl

pub map_received_id : {A C : Type 0} (r : Received A C) → map_received (λ c. c) r ≡ r
map_received_id (got a c) = refl
map_received_id waiting = refl
map_received_id ended = refl

-- The descriptions themselves are such channels.
abbrev pub queues : (A : Type 0) → Mpsc A
queues A = record {
  Chan = Queue A;
  channel = λ n. record { messages = []; capacity = n; sender = true; receiver = true };
  send = queue_send;
  recv = queue_recv;
  drop_sender = λ q. record q { sender = false };
  drop_receiver = λ q. record q { receiver = false };
  view = λ q. q;
  view-channel = λ _. refl;
  view-send = λ q a. map_sent_id (queue_send q a);
  view-recv = λ q. map_received_id (queue_recv q);
  view-drop_sender = λ _. refl;
  view-drop_receiver = λ _. refl;
}
