-- ===== src/Connection/Handshake/Lines.antt =====
-- ingest/src/connection/mod.rs and ingest/src/ftl_codec.rs: the lines of the handshake, and the
-- reaction to each.
use itgv.Base.{
  ℕ, zero, suc, ◌≡◌, refl, sym, ap, ◌∙◌, false, none, some, [], ◌∷◌, ◌++◌, arith, append-nil,
  reverse, inl,
}
use itgv.Connection.Handler.{
  set_attribute, handle_command, handle_connect, handle_hmac, handle_attribute,
}
use itgv.Connection.Handshake.Client.{Reacts}
use itgv.Connection.Handshake.Heard.{heard}
use itgv.Connection.Remote.{Env, notify_stream_start, samples, generate_hmac, allocate_port}
use itgv.Connection.Services.{Services}
use itgv.Connection.State.{ConnectionState, get_payload}
use itgv.Connection.Tasks.{continue, connected, port_line, on_dot, on_other, on_command}
use itgv.FtlCodec.Wire.{
  connect_line, attribute_line, decode-as_bytes, decode-connect_line, decode-attribute_line,
}
use itgv.FtlCodec.{
  FtlCommand, hmac, connect, dot, attribute, new, delimiter, decode, decode_command,
}
use itgv.Std.Decimal.{display}
use itgv.Std.HashMap.{HashMap, get}
use itgv.Std.Outcome.{ok}
use itgv.Std.Text.Laws.{Solid}
use itgv.Std.Text.{Text, lit, contains, Avoids, is_whitespace}
use itgv.Std.Utf8.RoundTrip.{AllScalar}
use itgv.Std.Utf8.{Bytes, as_bytes}

-- A line on the wire, with the delimiter and what the client sends next.
abbrev pub sent_line : Text → Bytes → Bytes
sent_line s rest = as_bytes s ++ (delimiter ++ rest)

-- The decoder takes the command, and leaves what comes next.
pub record Asks (b : Bytes) (c : FtlCommand) (rest : Bytes) : Type 0 where
  pub reads : (decode new b).result ≡ ok (some c)
  pub leaves : (decode new b).buf ≡ rest

pub hmac_line-Asks : (rest : Bytes) → Asks (sent_line (lit "HMAC") rest) hmac rest
unfolding decode_command contains
hmac_line-Asks rest =
    let e = decode-as_bytes new (lit "HMAC") rest (ground arith) (ground arith) in
    record { reads = ap (λ d. d.result) e; leaves = ap (λ d. d.buf) e }

pub dot_line-Asks : (rest : Bytes) → Asks (sent_line (lit ".") rest) dot rest
unfolding decode_command contains as_bytes
dot_line-Asks rest =
    let e = decode-as_bytes new (lit ".") rest (ground arith) (ground arith) in
    record { reads = ap (λ d. d.result) e; leaves = ap (λ d. d.buf) e }

-- A CONNECT line that names a channel and a key.
pub record GoodConnect (channel key : Text) (sigil : ℕ) : Type 0 where
  pub scalar : AllScalar (connect_line channel sigil key)
  pub one_line : Avoids b'\r' (connect_line channel sigil key)
  pub one_word : Avoids b' ' channel
  pub one_key : Avoids b' ' (sigil ∷ key)
  pub not_hmac : contains (lit "HMAC") (connect_line channel sigil key) ≡ false
  pub not_disconnect : contains (lit "DISCONNECT") (connect_line channel sigil key) ≡ false

-- An attribute line as clients write it: the key, a colon, a space and the value.
abbrev pub spaced : Text → Text → Text
spaced k value = attribute_line k (b' ' ∷ value)

pub record GoodAttribute (k value : Text) : Type 0 where
  pub scalar : AllScalar (spaced k value)
  pub one_line : Avoids b'\r' (spaced k value)
  pub one_key : Avoids b':' k
  pub one_value : Avoids b':' value
  pub no_space : Solid value
  pub no_space_behind : Solid (reverse value)
  pub not_hmac : contains (lit "HMAC") (spaced k value) ≡ false
  pub not_disconnect : contains (lit "DISCONNECT") (spaced k value) ≡ false
  pub not_connect : contains (lit "CONNECT") (spaced k value) ≡ false

pub attribute_line-Asks :
    (k value : Text) (rest : Bytes)
    → GoodAttribute k value
    → (entries : HashMap) × Asks (sent_line (spaced k value) rest) (attribute entries) rest
      × (get (lit "key") entries ≡ some k)
      × (get (lit "value") entries ≡ some value)
unfolding is_whitespace
attribute_line-Asks k value rest good =
    let (entries, e, named, valued) =
      decode-attribute_line new k (b' ' ∷ []) value [] [] rest (rw padded good.scalar)
        (rw padded good.one_line) good.one_key (omega arith, rw (append-nil value) good.one_value)
        (inl refl) (refl, tt) tt good.no_space good.no_space_behind (rw padded good.not_hmac)
        (rw padded good.not_disconnect) (rw padded good.not_connect) in
    let read = ap (λ s. decode new (sent_line s rest)) (sym padded) ∙ e in
    (
      entries,
      record { reads = ap (λ d. d.result) read; leaves = ap (λ d. d.buf) read },
      named,
      valued,
    )
  where
    padded : attribute_line k (((b' ' ∷ []) ++ (value ++ [])) ++ []) ≡ spaced k value
    padded = ap (λ v. spaced k v) (append-nil (value ++ []) ∙ append-nil value)

pub connect_line-Asks :
    (channel key : Text) (sigil : ℕ) (rest : Bytes)
    → GoodConnect channel key sigil
    → (entries : HashMap) × Asks
        (sent_line (connect_line channel sigil key) rest)
        (connect entries)
        rest
      × (get (lit "channel_id") entries ≡ some channel)
      × (get (lit "stream_key") entries ≡ some key)
connect_line-Asks channel key sigil rest good =
    let (entries, e, named, keyed) =
      decode-connect_line new channel key sigil rest good.scalar good.one_line good.one_word
        good.one_key good.not_hmac good.not_disconnect in
    (entries, record { reads = ap (λ d. d.result) e; leaves = ap (λ d. d.buf) e }, named, keyed)

module _ (services : Services) where
  samples-heard :
      (n : ℕ) (env : Env services) → heard (samples services n env).0.events ≡ heard env.events
  unfolding samples
  samples-heard zero env = refl
  samples-heard (suc n) env =
      samples-heard n (record env { world = (services.sample 0x00 0xff env.world).0 })

  -- The payload is what `generate_hmac` makes.
  pub hmac-Reacts :
      (st : ConnectionState) (env : Env services)
      → Reacts services hmac st env
          (record st { hmac_payload = some (generate_hmac services env).1 })
          (lit "200 " ∷ (generate_hmac services env).1 ∷ lit "\n" ∷ [])
  unfolding on_command on_other handle_command handle_hmac get_payload generate_hmac
  hmac-Reacts st env = record {
    later = (generate_hmac services env).0;
    then_do = continue;
    goes_on = λ e. cc;
    answers = refl;
    nothing_sent = samples-heard 128 env;
  }

  pub connect-Reacts :
      (entries : HashMap) (channel key : Text) (st : ConnectionState) (env : Env services)
      → get (lit "channel_id") entries ≡ some channel
      → get (lit "stream_key") entries ≡ some key
      → Reacts services
          (connect entries)
          st
          env
          (record st { stream_key = some key })
          (lit "200\n" ∷ [])
  unfolding on_command on_other handle_command notify_stream_start
  connect-Reacts entries channel key st env c k = record {
    later = (notify_stream_start services key env).0;
    then_do = continue;
    goes_on = λ e. cc;
    answers = rw (c, k, handle_connect) refl;
    nothing_sent = ground arith;
  }

  pub attribute-Reacts :
      (entries : HashMap) (k value : Text) (st st' : ConnectionState) (env : Env services)
      → get (lit "key") entries ≡ some k
      → get (lit "value") entries ≡ some value
      → set_attribute k value st ≡ some st'
      → Reacts services (attribute entries) st env st' (lit "" ∷ [])
  unfolding on_command on_other handle_command handle_attribute
  attribute-Reacts entries k value st st' env n v e = record {
    later = env;
    then_do = continue;
    goes_on = λ e. cc;
    answers = rw (n, v, handle_attribute, e) refl;
    nothing_sent = refl;
  }

  pub dot-Reacts :
      (st : ConnectionState) (env : Env services) (port : ℕ)
      → st.rtp_port ≡ none
      → (allocate_port services env).1 ≡ some port
      → Reacts services dot st env
          (record st { rtp_port = some port })
          (port_line (display port) ∷ [])
  unfolding on_command on_dot allocate_port
  dot-Reacts st env port fresh given = record {
    later = (allocate_port services env).0;
    then_do = connected;
    goes_on = λ e. cc;
    answers = rw (fresh, on_dot, given) refl;
    nothing_sent = ground arith;
  }
