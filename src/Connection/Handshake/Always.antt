-- ===== src/Connection/Handshake/Always.antt =====
-- ingest/src/connection/mod.rs and ingest/src/ftl_codec.rs: the handshake under any schedule.
use itgv.Base.{ℕ, ◌+◌, ◌≡◌, refl, ap, ◌∙◌, List, ◌++◌, length}
use itgv.Connection.Handshake.Attribute.{Attribute}
use itgv.Connection.Handler.{FrameCommand}
use itgv.Connection.Handshake.Client.{LiveClient}
use itgv.Connection.Handshake.Heard.{heard, heard-append}
use itgv.Connection.Handshake.Exchanges.{AllGood}
use itgv.Connection.Handshake.Lines.{GoodConnect}
use itgv.Connection.Handshake.Whole.{handshake, replies_to_handshake, GivesPorts, handshake-Waits}
use itgv.Connection.Mpsc.{Mpsc}
use itgv.Connection.Remote.Growth.{Grows}
use itgv.Connection.Remote.{Env, Event}
use itgv.Connection.Services.{Services, Documented, AllHex}
use itgv.Connection.Socket.{Framed}
use itgv.Connection.State.{new}
use itgv.Connection.System.Refinement.{Queued}
use itgv.Connection.System.Safety.{reached}
use itgv.Connection.System.Sequential.Growth.{events_of, exchanges-Grows}
use itgv.Connection.System.Sequential.Refines.{seen_after, seen_after-Grows, reached_past}
use itgv.Connection.System.Sequential.Rounds.{state_of}
use itgv.Connection.System.Sequential.{Stage, serving, hanging, cut, leaving, over, exchanges}
use itgv.Connection.System.{Task}
use itgv.FtlCodec.{FtlCommand}
use itgv.Std.Text.{Text}
use itgv.Std.Utf8.{Bytes, as_bytes}

-- The bytes put on the wire since `before` begin with the answers to a handshake.
pub record Replied (before now : List Event) : Type 0 where
  pub payload : Text
  pub port : ℕ
  pub more : Bytes
  pub long : length payload ≡ 256
  pub is_hex : AllHex payload
  pub wire : heard now ≡ (heard before ++ as_bytes (replies_to_handshake payload port)) ++ more

module _ (services : Services) (framed : Framed services.World) where
  events-state_of :
      (x : Stage services framed)
      → (state_of services framed x).env.events ≡ events_of services framed x
  events-state_of (serving env frame st) = refl
  events-state_of (hanging env frame st) = refl
  events-state_of (cut env frame st) = refl
  events-state_of (leaving env frame) = refl
  events-state_of (over env frame) = refl

  -- What was heard by some exchanges is still heard after some more.
  heard-exchanges :
      (m : ℕ) (x : Stage services framed) (now : Env services) (text : Bytes)
      → events_of services framed x ≡ now.events
      → heard now.events ≡ text
      → (more : Bytes) × (heard
            (state_of services framed (exchanges services framed m x)).env.events
          ≡ text ++ more)
  heard-exchanges m x now text e h =
      let g = exchanges-Grows services framed m x in
      let (more, same) = heard-append g.more (events_of services framed x) in
      (
        more,
        ap heard (events-state_of (exchanges services framed m x) ∙ g.same)
            ∙ same
            ∙ ap (λ es. heard es ++ more) e
            ∙ ap (λ b. b ++ more) h,
      )

  -- No schedule keeps a client from its answers, if it sends the HMAC request, a CONNECT line, any
  -- number of attributes and the dot, and the server gives out a port whenever it is asked:
  -- however the two tasks were scheduled, some further turns of theirs bring them to where the bytes
  -- put on the wire since the start begin with "200 ", a payload of 256 lower-case hexadecimal
  -- digits, a line end, "200", a line end and the line with the port; and what the tasks had done
  -- outside before those turns is the first part of what they have done after them. The client's
  -- bytes have all arrived and it stays, its lines are well formed, and the sampler and the
  -- hexadecimal encoder do as documented.
  pub reached-Replied :
      (client : LiveClient framed) (commands : Mpsc FtlCommand) (replies : Mpsc FrameCommand)
      (ts : List Task) (env : Env services) (frame : framed.Frame) (channel key : Text) (sigil : ℕ)
      (attributes : List Attribute) (rest : Bytes)
      → Documented services
      → GivesPorts services
      → GoodConnect channel key sigil
      → AllGood attributes
      → client.unread frame ≡ handshake channel sigil key attributes rest
      → (us : List Task) × Replied env.events
          (seen_after services framed commands replies ts us env frame).env.events
        × Grows
            (reached services framed commands replies ts env frame).env.events
            (seen_after services framed commands replies ts us env frame).env.events
  reached-Replied client commands replies ts env frame channel key sigil attributes rest d g line
        lines h =
      let (payload, port, long, is_hex, s) =
        handshake-Waits services framed client env frame channel key sigil attributes rest d g line
          lines h in
      let count = 3 + length attributes in
      let (us, m, e) = reached_past services framed commands replies ts count env frame in
      let (more, wire) =
        heard-exchanges m (exchanges services framed count (serving env frame new)) s.now _
          (ap (events_of services framed) s.waits) s.sent in
      (
        us,
        record {
          payload = payload;
          port = port;
          more = more;
          long = long;
          is_hex = is_hex;
          wire = ap (λ (t : Queued services framed). heard t.env.events) e ∙ wire;
        },
        seen_after-Grows services framed commands replies ts us env frame,
      )
