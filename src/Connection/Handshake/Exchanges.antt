-- ===== src/Connection/Handshake/Exchanges.antt =====
-- ingest/src/connection/mod.rs: the exchanges of a handshake, one after the other.
use itgv.Base.{
  ℕ, suc, ◌+◌, ◌≡◌, refl, sym, ap, subst, ◌∙◌, List, [], ◌∷◌, ◌++◌, append_assoc, append-nil, arith,
  length,
}
use itgv.Connection.Handshake.Attribute.{
  Attribute, key_of, value_of, put, set_attribute-put, put-port, Good, Good-line,
}
use itgv.Connection.Handshake.Client.{LiveClient, Serves, Reacts, exchange-Serves}
use itgv.Connection.Handshake.Heard.{heard, concat, as_bytes-append}
use itgv.Connection.Handshake.Lines.{sent_line, Asks, spaced, attribute_line-Asks, attribute-Reacts}
use itgv.Connection.Remote.{Env, call}
use itgv.Connection.Services.{Services}
use itgv.Connection.Socket.{Framed}
use itgv.Connection.State.{ConnectionState}
use itgv.Connection.System.Sequential.{Stage, exchange, exchanges}
use itgv.FtlCodec.{FtlCommand}
use itgv.Std.Text.{Text}
use itgv.Std.Utf8.{Bytes, as_bytes}

abbrev pub attribute_lines : List Attribute → Bytes → Bytes
attribute_lines [] rest = rest
attribute_lines (a ∷ attributes) rest =
    sent_line (spaced (key_of a) (value_of a)) (attribute_lines attributes rest)

abbrev pub AllGood : List Attribute → Type 0
AllGood [] = Unit {0}
AllGood (a ∷ attributes) = Good a × AllGood attributes

abbrev pub put_all : List Attribute → ConnectionState → ConnectionState
put_all [] st = st
put_all (a ∷ attributes) st = put_all attributes (put a st)

pub put_all-port :
    (attributes : List Attribute) (st : ConnectionState)
    → (put_all attributes st).rtp_port ≡ st.rtp_port
put_all-port [] st = refl
put_all-port (a ∷ attributes) st = put_all-port attributes (put a st) ∙ put-port a st

module _ (services : Services) (framed : Framed services.World) (client : LiveClient framed) where
  abbrev Waits : Stage services framed → Env services → ConnectionState → Text → Bytes → Type 0
  Waits = Serves services framed client

  -- One more exchange.
  pub extend :
      (x : Stage services framed) (env : Env services) (n : ℕ) (st st' : ConnectionState)
      (text : Text) (tail rest : Bytes) (c : FtlCommand) (pieces : List Text)
      (s : Waits (exchanges services framed n x) env st text tail)
      → Asks tail c rest
      → Reacts services c st (call services (framed.next s.frame) s.now).0 st' pieces
      → Waits (exchanges services framed (suc n) x) env st' (text ++ concat pieces) rest
  unfolding exchanges
  extend x env n st st' text tail rest c pieces s a r =
      let asks = subst (λ b. Asks b c rest) (sym s.still_unread) a in
      let next =
        exchange-Serves services framed client s.now s.frame st st' c pieces rest asks.reads
          asks.leaves r in
      record {
        now = next.now;
        frame = next.frame;
        waits = ap (exchange services framed) s.waits ∙ next.waits;
        still_unread = next.still_unread;
        sent =
            next.sent
            ∙ ap (λ b. b ++ as_bytes (concat pieces)) s.sent
            ∙ append_assoc (heard env.events) (as_bytes text) (as_bytes (concat pieces))
            ∙ ap (λ b. heard env.events ++ b) (sym (as_bytes-append text (concat pieces)));
      }

  -- The same, with the count and the text written in another way.
  pub retell :
      (x : Stage services framed) (env : Env services) (m n : ℕ) (st : ConnectionState)
      (text text' : Text) (rest : Bytes)
      → m ≡ n
      → text ≡ text'
      → Waits (exchanges services framed m x) env st text rest
      → Waits (exchanges services framed n x) env st text' rest
  retell x env m n st text text' rest e f s =
      subst (λ k. Waits (exchanges services framed k x) env st text' rest) e
        (subst (λ t. Waits (exchanges services framed m x) env st t rest) f s)

  -- The attributes, one after the other; the answer to each is empty.
  pub extend_all :
      (attributes : List Attribute) (x : Stage services framed) (env : Env services) (n : ℕ)
      (st : ConnectionState) (text : Text) (rest : Bytes)
      → AllGood attributes
      → Waits (exchanges services framed n x) env st text (attribute_lines attributes rest)
      → Waits
          (exchanges services framed (length attributes + n) x)
          env
          (put_all attributes st)
          text
          rest
  extend_all [] x env n st text rest good s =
      retell x env n (0 + n) st text text rest (omega arith) refl s
  extend_all (a ∷ attributes) x env n st text rest good s =
      let (entries, asks, named, valued) =
        attribute_line-Asks (key_of a) (value_of a) _ (Good-line a good.0) in
      let first =
        extend x env n st _ text _ _ _ _ s asks
          (attribute-Reacts services entries _ _ st _ _ named valued (set_attribute-put a st)) in
      retell x env (length attributes + suc n) (suc (length attributes) + n) _ text text rest
        (omega arith) refl
        (extend_all attributes x env (suc n) (put a st) text rest good.1
          (retell x env (suc n) (suc n) _ _ text _ refl (append-nil text) first))
