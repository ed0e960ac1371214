-- ===== src/Connection/Handler/Hmac.antt =====
-- ingest/src/connection/mod.rs, the HMAC branch of `handle_command`, with `generate_hmac` and
-- `get_payload`.
use itgv.Base.{◌≡◌, refl, some, [], ◌∷◌, length}
use itgv.Connection.Handler.{send, handle_command, handle_hmac}
use itgv.Connection.Ports.{Quiet, generate_hmac-Quiet}
use itgv.Connection.Remote.Results.{generate_hmac_lem}
use itgv.Connection.Remote.{Env}
use itgv.Connection.Services.{Services, Documented, AllHex}
use itgv.Connection.State.{ConnectionState, get_payload}
use itgv.FtlCodec.{hmac}
use itgv.Std.Text.{Text, lit}

module _ (services : Services) where
  -- A fresh payload is kept in the state, and the client is sent just that one.
  pub record Challenges (st : ConnectionState) (env : Env services) : Type 0 where
    pub payload : Text
    pub kept :
        (handle_command services hmac st env).1.state ≡ record st { hmac_payload = some payload }
    pub told :
        (handle_command services hmac st env).1.answer
        ≡ some (send (lit "200 " ∷ payload ∷ lit "\n" ∷ []))
    pub long : length payload ≡ 256
    pub is_hex : AllHex payload
    pub nothing_else : Quiet env.events (handle_command services hmac st env).0.events

  -- If the sampler and the hexadecimal encoder do as documented, an HMAC request puts a new payload
  -- of 256 lower-case hexadecimal digits in the state, in the place of any earlier one, and changes
  -- nothing else there; the answer is "200 ", that payload and a line end; and no port and no stream
  -- is touched.
  pub handle_command-Challenges :
      (st : ConnectionState) (env : Env services) → Documented services → Challenges st env
  unfolding handle_command handle_hmac get_payload
  handle_command-Challenges st env d =
      let (bytes, same, sampled, outside, count, small, long, is_hex) =
        generate_hmac_lem services env d in
      record {
        payload = _;
        kept = refl;
        told = refl;
        long = long;
        is_hex = is_hex;
        nothing_else = generate_hmac-Quiet services env;
      }
