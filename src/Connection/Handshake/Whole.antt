-- ===== src/Connection/Handshake/Whole.antt =====
-- ingest/src/connection/mod.rs and ingest/src/ftl_codec.rs: the handshake from the first line to the
-- port.
use itgv.Base.{
  ℕ, suc, ◌+◌, ◌≡◌, refl, sym, ap, ◌∙◌, some, List, [], ◌∷◌, ◌++◌, append_assoc, append-nil, arith,
  length,
}
use itgv.Connection.Handshake.Attribute.{Attribute}
use itgv.Connection.Handler.{FrameCommand}
use itgv.Connection.Handshake.Client.{LiveClient, Serves}
use itgv.Connection.Handshake.Heard.{heard, concat}
use itgv.Connection.Handshake.Lines.{
  sent_line, hmac_line-Asks, dot_line-Asks, GoodConnect, connect_line-Asks, hmac-Reacts,
  connect-Reacts, dot-Reacts,
}
use itgv.Connection.Mpsc.{Mpsc}
use itgv.Connection.Remote.Results.{generate_hmac_lem}
use itgv.Connection.Remote.{Env, call, generate_hmac, allocate_port}
use itgv.Connection.Services.{Services, Documented, AllHex}
use itgv.Connection.Socket.{Framed}
use itgv.Connection.State.{ConnectionState, new}
use itgv.Connection.System.Refinement.{Queued}
use itgv.Connection.System.Sequential.Refines.{seen_after, reached-exchanges}
use itgv.Connection.System.Sequential.Rounds.{rounds, state_of}
use itgv.Connection.System.Sequential.{Stage, serving, exchanges}
use itgv.Connection.Tasks.{port_line}
use itgv.FtlCodec.Wire.{connect_line}
use itgv.FtlCodec.{FtlCommand}
use itgv.Std.Decimal.{display}
use itgv.Std.Text.{Text, lit}
use itgv.Std.Utf8.{Bytes, as_bytes}
use itgv.Connection.Handshake.Exchanges.{
  AllGood, attribute_lines, put_all, put_all-port, extend, extend_all, retell,
}

-- What the client sends: an HMAC request, its channel and key, its attributes, and a dot.
abbrev pub handshake : Text → ℕ → Text → List Attribute → Bytes → Bytes
handshake channel sigil key attributes rest = sent_line (lit "HMAC") (
    sent_line (connect_line channel sigil key)
      (attribute_lines attributes (sent_line (lit ".") rest)))

-- What it is sent.
abbrev pub replies_to_handshake : Text → ℕ → Text
replies_to_handshake payload port =
    lit "200 " ++ (payload ++ (lit "\n" ++ (lit "200\n" ++ port_line (display port))))

abbrev pub negotiated : Text → Text → List Attribute → ℕ → ConnectionState
negotiated payload key attributes port =
    record (put_all attributes
      (record new { hmac_payload = some payload; stream_key = some key })) { rtp_port = some port }

module _ (services : Services) where
  -- The server gives out a port whenever it is asked.
  abbrev pub GivesPorts : Type 0
  GivesPorts = (env : Env services) → (port : ℕ) × ((allocate_port services env).1 ≡ some port)

module _ (services : Services) (framed : Framed services.World) (client : LiveClient framed) where
  -- The connection waits for the next command with all of the client's data in its state, the
  -- client has got its answers, and what it sent after the handshake is still to be read.
  pub record Negotiates (s : Queued services framed) (env : Env services) (key : Text)
      (attributes : List Attribute) (rest : Bytes) : Type 0 where
    pub payload : Text
    pub port : ℕ
    pub now : Env services
    pub frame : framed.Frame
    pub waits :
        s ≡ state_of services framed (serving now frame (negotiated payload key attributes port))
    pub long : length payload ≡ 256
    pub is_hex : AllHex payload
    pub replied :
        heard now.events ≡ heard env.events ++ as_bytes (replies_to_handshake payload port)
    pub still_unread : client.unread frame ≡ rest

  abbrev Waits : Stage services framed → Env services → ConnectionState → Text → Bytes → Type 0
  Waits = Serves services framed client

  start-Waits :
      (env : Env services) (frame : framed.Frame) (tail : Bytes)
      → client.unread frame ≡ tail
      → Waits (exchanges services framed 0 (serving env frame new)) env new [] tail
  unfolding exchanges as_bytes
  start-Waits env frame tail h = record {
    now = env;
    frame = frame;
    waits = refl;
    still_unread = h;
    sent = sym (append-nil (heard env.events));
  }

  in_one_piece :
      (payload : Text) (port : ℕ)
      → (([] ++ concat (lit "200 " ∷ payload ∷ lit "\n" ∷ [])) ++ concat (lit "200\n" ∷ []))
          ++ concat (port_line (display port) ∷ [])
        ≡ replies_to_handshake payload port
  in_one_piece payload port = simp (append_assoc, append-nil)

  -- All of it, for the sequential program.
  pub handshake-Waits :
      (env : Env services) (frame : framed.Frame) (channel key : Text) (sigil : ℕ)
      (attributes : List Attribute) (rest : Bytes)
      → Documented services
      → GivesPorts services
      → GoodConnect channel key sigil
      → AllGood attributes
      → client.unread frame ≡ handshake channel sigil key attributes rest
      → (payload : Text) × (port : ℕ) × (length payload ≡ 256)
        × AllHex payload
        × Waits
            (exchanges services framed (3 + length attributes) (serving env frame new))
            env
            (negotiated payload key attributes port)
            (replies_to_handshake payload port)
            rest
  unfolding new
  handshake-Waits env frame channel key sigil attributes rest documented gives line lines sends =
      let x = serving env frame new in
      let s0 = start-Waits env frame _ sends in
      let e0 = (call services (framed.next s0.frame) s0.now).0 in
      let payload = (generate_hmac services e0).1 in
      let (bytes, same, sampled, outside, count, small, long, is_hex) =
        generate_hmac_lem services e0 documented in
      let s1 =
        extend services framed client x env 0 new _ [] _ _ _ _ s0 (hmac_line-Asks _)
          (hmac-Reacts services new e0) in
      let (entries, asks, named, keyed) = connect_line-Asks channel key sigil _ line in
      let s2 =
        extend services framed client x env 1 _ _ _ _ _ _ _ s1 asks
          (connect-Reacts services entries channel key _ _ named keyed) in
      let s3 = extend_all services framed client attributes x env 2 _ _ _ lines s2 in
      let e3 = (call services (framed.next s3.frame) s3.now).0 in
      let (port, given) = gives e3 in
      let s4 =
        extend services framed client x env (length attributes + 2) _ _ _ _ _ _ _ s3
          (dot_line-Asks rest) (dot-Reacts services _ e3 port (put_all-port attributes _) given) in
      (
        payload,
        port,
        long,
        is_hex,
        retell services framed client x env (suc (length attributes + 2)) (3 + length attributes) _
            _ _ rest (omega arith) (in_one_piece payload port) s4,
      )

  -- A client whose bytes have all arrived, and that stays, is served: if it sends the HMAC request,
  -- a CONNECT line with its channel and key, any number of attributes and the dot, and the server
  -- gives out a port whenever it is asked, then there is a schedule of the two tasks, of one round
  -- for each line, after which the state holds the key without its sigil, every text attribute and
  -- both flags (as last sent, where one is repeated), the payload and the port, all else as at the
  -- start; the bytes put on the wire are "200 ", the payload, a line end, "200", a line end and the
  -- port line; what was sent behind the dot is still unread; and the connection waits for the next
  -- command. The payload has 256 lower-case hexadecimal digits, if the sampler and the hexadecimal
  -- encoder do as documented. The CONNECT line and the text attributes are of scalar values with no
  -- carriage return; channel and key hold no space, a value no colon and no whitespace at either
  -- end; no line holds a keyword that is tested before its own; and the flags are sent as "true" or
  -- "false".
  pub rounds-Negotiates :
      (commands : Mpsc FtlCommand) (replies : Mpsc FrameCommand) (env : Env services)
      (frame : framed.Frame) (channel key : Text) (sigil : ℕ) (attributes : List Attribute)
      (rest : Bytes)
      → Documented services
      → GivesPorts services
      → GoodConnect channel key sigil
      → AllGood attributes
      → client.unread frame ≡ handshake channel sigil key attributes rest
      → Negotiates
          (seen_after services framed commands replies []
            (rounds (3 + length attributes))
            env
            frame)
          env
          key
          attributes
          rest
  rounds-Negotiates commands replies env frame channel key sigil attributes rest d g line lines h =
      let (payload, port, long, is_hex, s) =
        handshake-Waits env frame channel key sigil attributes rest d g line lines h in
      let turns =
        (reached-exchanges services framed commands replies [] (3 + length attributes) env
          frame).1 in
      record {
        payload = payload;
        port = port;
        now = s.now;
        frame = s.frame;
        waits = turns ∙ ap (state_of services framed) s.waits;
        long = long;
        is_hex = is_hex;
        replied = s.sent;
        still_unread = s.still_unread;
      }
