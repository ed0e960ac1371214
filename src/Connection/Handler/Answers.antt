-- ===== src/Connection/Handler/Answers.antt =====
-- ingest/src/connection/mod.rs, `handle_command`: which commands are answered, and with what.
use itgv.Base.{◌≡◌, ◌≢◌, ◌↔◌, ◌⊎◌, inl, inr, Option, none, some, refl, ap, arith}
use itgv.Connection.Handler.{
  Handled, silent, after_attribute, parse_flag, set_attribute, handle_attribute, handle_command,
}
use itgv.Connection.Remote.{Env}
use itgv.Connection.Services.{Services}
use itgv.FtlCodec.{attribute}
use itgv.Std.HashMap.{HashMap, get}
use itgv.Connection.State.{ConnectionState}
use itgv.Std.Text.{Text, lit, text_eq, text_eq_iff}

-- An attribute that is refused with no answer: a flag other than "true" and "false".
pub record IsBadFlag (key value : Text) : Type 0 where
  pub flag : (key ≡ lit "Video") ⊎ (key ≡ lit "Audio")
  pub not_true : value ≢ lit "true"
  pub not_false : value ≢ lit "false"

parse_flag-none_iff :
    (value : Text) → (parse_flag value ≡ none) ↔ ((value ≢ lit "true") × (value ≢ lit "false"))
unfolding parse_flag
parse_flag-none_iff value =
    ground (arith, text_eq_iff value (lit "true"), text_eq_iff value (lit "false"))

set_attribute-none :
    (key value : Text) (conn : ConnectionState)
    → set_attribute key value conn ≡ none
    → IsBadFlag key value
unfolding set_attribute
set_attribute-none key value conn h = ground (
  arith,
  text_eq_iff key (lit "Video"),
  text_eq_iff key (lit "Audio"),
  text_eq_iff value (lit "true"),
  text_eq_iff value (lit "false"),
)

bad_flag_value : (value : Text) → value ≢ lit "true" → value ≢ lit "false" → parse_flag value ≡ none
bad_flag_value value t f = (parse_flag-none_iff value).1 (t, f)

video_flag :
    (value : Text) (conn : ConnectionState)
    → parse_flag value ≡ none
    → set_attribute (lit "Video") value conn ≡ none
unfolding set_attribute text_eq
video_flag value conn h = ground arith

audio_flag :
    (value : Text) (conn : ConnectionState)
    → parse_flag value ≡ none
    → set_attribute (lit "Audio") value conn ≡ none
unfolding set_attribute text_eq
audio_flag value conn h = ground arith

pub set_attribute-none_iff :
    (key value : Text) (conn : ConnectionState)
    → (set_attribute key value conn ≡ none) ↔ IsBadFlag key value
set_attribute-none_iff key value conn = (set_attribute-none key value conn, λ b. refused b b.flag)
  where
    refused :
        IsBadFlag key value
        → (key ≡ lit "Video") ⊎ (key ≡ lit "Audio")
        → set_attribute key value conn ≡ none
    refused b (inl e) = rw e (video_flag value conn (bad_flag_value value b.not_true b.not_false))
    refused b (inr e) = rw e (audio_flag value conn (bad_flag_value value b.not_true b.not_false))

module _ (services : Services) where
  silent_or_answered :
      (conn : ConnectionState) (env : Env services) (o : Option ConnectionState)
      → ◌≡◌ {A = Env services × Handled} (env, after_attribute conn o) (env, silent conn)
      → o ≡ none
  silent_or_answered conn env none h = refl
  silent_or_answered conn env (some next) h = cc (ap (λ (p : Env services × Handled). p.1.answer) h)

  -- An attribute with a key and a value is refused, with the state left alone, no answer and nothing
  -- done outside, on exactly the two flag keys with a value other than "true" and "false".
  pub handle_command-silent_iff :
      (entries : HashMap) (key value : Text) (conn : ConnectionState) (env : Env services)
      → get (lit "key") entries ≡ some key
      → get (lit "value") entries ≡ some value
      → (handle_command services (attribute entries) conn env
          ≡ (env, record { state = conn; answer = none }))
        ↔ IsBadFlag key value
  unfolding handle_command handle_attribute
  handle_command-silent_iff entries key value conn env k v = (
    λ h.
        (set_attribute-none_iff key value conn).0
          (silent_or_answered conn env (set_attribute key value conn) (rw (k, v) at h)),
    λ bad. rw (k, v, (set_attribute-none_iff key value conn).1 bad) refl,
  )
