-- ===== src/Tests/ConnectionExamples.antt =====
-- The theorems on the handlers and on single steps of the command task, at concrete commands.
use itgv.Base.{ℕ, ◌<◌, ◌≡◌, ◌↔◌, ◌⊎◌, refl, true, false, none, some, List, [], ◌∷◌, length, take}
use itgv.Connection.Frame.Order.{
  write_in_order, written_after, handle_frame_command-write_in_order, handle_frame_command-events,
}
use itgv.Connection.Frame.{handle_frame_command}
use itgv.Connection.Handler.Answers.{IsBadFlag, handle_command-silent_iff}
use itgv.Connection.Handler.Attributes.{video_codec, wire_name, Writes, set_attribute-Writes}
use itgv.Connection.Handler.Hmac.{Challenges, handle_command-Challenges}
use itgv.Connection.Handler.{send, set_attribute, handle_command}
use itgv.Connection.Ports.{ended_keys}
use itgv.Connection.Remote.Results.{
  PortFrom, AllBelow, Sampled, allocate_port-PortFrom, generate_hmac_lem,
}
use itgv.Connection.Remote.{Env, allocate_port, generate_hmac}
use itgv.Connection.Services.{AllHex}
use itgv.Connection.State.{ConnectionState, new}
use itgv.Connection.Tasks.Dot.{DotAnswer, on_command-dot, refusal_tells_no_end}
use itgv.Connection.Tasks.Ledger.{Ledger, on_command-Ledger}
use itgv.Connection.Tasks.{answering, conn_done, give_up, refusal, on_command, after_answer}
use itgv.FtlCodec.{dot, attribute}
use itgv.Std.HashMap.{HashMap, empty, insert, get}
use itgv.Std.Text.{lit, text_eq}
use itgv.Tests.Demo.{services, services_without_ports, services-Documented, framed, env}

abbrev quiet_env : Env services_without_ports
quiet_env = record { world = 0; events = [] }

-- A connection in the middle of a stream.
abbrev streaming : ConnectionState
streaming = record new { stream_key = some (lit "aa"); rtp_port = some 9000 }

abbrev announced : ConnectionState
announced = record new { stream_key = some (lit "aa") }

set_attribute-Writes_example :
    (next : ConnectionState) × (set_attribute (wire_name video_codec) (lit "H264") new ≡ some next)
    × Writes video_codec (lit "H264") new next
set_attribute-Writes_example = set_attribute-Writes video_codec (lit "H264") new

-- A flag that is neither "true" nor "false".
abbrev bad_flag : HashMap
bad_flag = insert (lit "value") (lit "yes") (insert (lit "key") (lit "Video") empty)

handle_command-silent_iff_example :
    (handle_command services (attribute bad_flag) new env
      ≡ (env, record { state = new; answer = none }))
    ↔ IsBadFlag (lit "Video") (lit "yes")
unfolding get insert text_eq
handle_command-silent_iff_example =
    handle_command-silent_iff services bad_flag (lit "Video") (lit "yes") new env refl refl

handle_frame_command-write_in_order_example :
    handle_frame_command services (framed _) (some (send (lit "200 " ∷ lit "\n" ∷ []))) [] env
    ≡ write_in_order services (framed _) (lit "200 " ∷ lit "\n" ∷ []) [] env
handle_frame_command-write_in_order_example =
    handle_frame_command-write_in_order services (framed _) (lit "200 " ∷ lit "\n" ∷ []) [] env

handle_frame_command-events_example :
    (n : ℕ) × ((handle_frame_command services
        (framed _)
        (some (send (lit "a" ∷ lit "b" ∷ [])))
        []
        env).0.events
      ≡ written_after [] (take n (lit "a" ∷ lit "b" ∷ [])))
    × ((((handle_frame_command services
              (framed _)
              (some (send (lit "a" ∷ lit "b" ∷ [])))
              []
              env).1.done
            ≡ true)
          × (n ≡ 2))
        ⊎ (((handle_frame_command services
                (framed _)
                (some (send (lit "a" ∷ lit "b" ∷ [])))
                []
                env).1.done
              ≡ false)
            × (n < 2)))
handle_frame_command-events_example =
    handle_frame_command-events services (framed _) (lit "a" ∷ lit "b" ∷ []) [] env

allocate_port-PortFrom_example : PortFrom services env 9000
unfolding allocate_port
allocate_port-PortFrom_example = allocate_port-PortFrom services env 9000 refl

generate_hmac_lem_example :
    (bytes : List ℕ) × ((generate_hmac services env).1 ≡ services.hex_encode bytes)
    × Sampled services env.world bytes (generate_hmac services env).0.world
    × ((generate_hmac services env).0.events ≡ [])
    × (length bytes ≡ 128)
    × AllBelow services 255 bytes
    × (length (generate_hmac services env).1 ≡ 256)
    × AllHex (generate_hmac services env).1
generate_hmac_lem_example = generate_hmac_lem services env services-Documented

on_command-dot_example :
    DotAnswer services new env
      (on_command services (some dot) new env).1
      (on_command services (some dot) new env).0
on_command-dot_example = on_command-dot services new env

refusal_tells_no_end_example :
    (st : ConnectionState) × (now : Env services_without_ports) × (on_command services_without_ports
        (some dot)
        announced
        quiet_env
      ≡ (now, answering st refusal give_up))
    × (st.stream_key ≡ some (lit "aa"))
    × ((after_answer services_without_ports give_up true st now).1 ≡ conn_done)
    × (ended_keys (after_answer services_without_ports give_up true st now).0.events ≡ [])
unfolding new allocate_port
refusal_tells_no_end_example =
    refusal_tells_no_end services_without_ports announced quiet_env true refl refl

on_command-Ledger_example :
    Ledger
      (on_command services (some dot) new env).0.events
      (on_command services (some dot) new env).1
unfolding new
on_command-Ledger_example =
    on_command-Ledger services (some dot) new env (record { balance = refl; refusing = tt })

handle_command-Challenges_example : Challenges services new env
handle_command-Challenges_example = handle_command-Challenges services new env services-Documented
