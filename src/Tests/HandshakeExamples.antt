-- ===== src/Tests/HandshakeExamples.antt =====
-- The handshake at a concrete client and services.
use itgv.Base.{refl, ap, List, [], ◌∷◌, arith}
use itgv.Connection.Handler.Attributes.{vendor_name, video_codec}
use itgv.Connection.Handshake.Attribute.{Attribute, text_attribute, video_flag}
use itgv.Base.{true}
use itgv.Connection.Handshake.Always.{Replied, reached-Replied}
use itgv.Connection.Remote.Growth.{Grows}
use itgv.Connection.System.{Task}
use itgv.Connection.System.Safety.{reached}
use itgv.Tests.Demo.{hands_over}
use itgv.Base.{List}
use itgv.Std.Utf8.{Bytes}
use itgv.Connection.Handshake.Client.{LiveClient}
use itgv.Connection.Handshake.Exchanges.{AllGood}
use itgv.Connection.Handshake.Lines.{GoodConnect}
use itgv.Connection.Handshake.Whole.{GivesPorts, handshake, Negotiates, rounds-Negotiates}
use itgv.Connection.Remote.{allocate_port}
use itgv.Connection.System.Sequential.Refines.{seen_after}
use itgv.Connection.System.Sequential.Rounds.{rounds}
use itgv.Std.Text.{lit, contains, is_whitespace, starts_with}
use itgv.Tests.Demo.{services, services-Documented, framed, commands, replies, env, item_of}

abbrev live : (World : Type 0) → LiveClient (framed World)
live World = record {
  unread = λ f. f;
  next_reads = λ f w c reads. (ap item_of reads, refl);
  send_works = λ f item w. (refl, refl);
}

ports_are_given : GivesPorts services
unfolding allocate_port
ports_are_given now = (_, refl)

-- A channel, and a stream key behind a sigil.
good_connect : GoodConnect (lit "77") (lit "key") b'$'
unfolding contains starts_with
good_connect = record {
  scalar = ground arith;
  one_line = ground arith;
  one_word = ground arith;
  one_key = ground arith;
  not_hmac = refl;
  not_disconnect = refl;
}

abbrev attributes : List Attribute
attributes =
    text_attribute vendor_name (lit "OBS Studio")
    ∷ video_flag true
    ∷ text_attribute video_codec (lit "H264")
    ∷ []

good_attributes : AllGood attributes
unfolding contains starts_with is_whitespace
good_attributes = (
  record {
    scalar = ground arith;
    one_line = ground arith;
    one_key = ground arith;
    one_value = ground arith;
    no_space = refl;
    no_space_behind = refl;
    not_hmac = refl;
    not_disconnect = refl;
    not_connect = refl;
  },
  (
    tt,
    (
      record {
        scalar = ground arith;
        one_line = ground arith;
        one_key = ground arith;
        one_value = ground arith;
        no_space = refl;
        no_space_behind = refl;
        not_hmac = refl;
        not_disconnect = refl;
        not_connect = refl;
      },
      tt,
    ),
  ),
)

abbrev hello : Bytes
hello = handshake (lit "77") b'$' (lit "key") attributes (lit "PING")

rounds-Negotiates_example :
    Negotiates services
      (framed _)
      (live _)
      (seen_after services (framed _) commands replies [] (rounds 6) env hello)
      env
      (lit "key")
      attributes
      (lit "PING")
rounds-Negotiates_example =
    rounds-Negotiates services (framed _) (live _) commands replies env hello (lit "77") (lit "key")
      b'$' attributes (lit "PING") services-Documented ports_are_given good_connect good_attributes
      refl

reached-Replied_example :
    (us : List Task) × Replied env.events
      (seen_after services (framed _) commands replies hands_over us env hello).env.events
    × Grows
        (reached services (framed _) commands replies hands_over env hello).env.events
        (seen_after services (framed _) commands replies hands_over us env hello).env.events
reached-Replied_example =
    reached-Replied services (framed _) (live _) commands replies hands_over env hello (lit "77")
      (lit "key") b'$' attributes (lit "PING") services-Documented ports_are_given good_connect
      good_attributes refl
