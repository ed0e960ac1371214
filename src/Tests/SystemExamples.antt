-- ===== src/Tests/SystemExamples.antt =====
-- The theorems on a whole connection, at the concrete client, services and channels.
use itgv.Base.{ℕ, ◌+◌, ◌≤◌, ◌≡◌, ◌⊎◌, inl, refl, none, some, List, [], ◌∷◌, ◌++◌, length}
use itgv.Connection.Handler.{send, handle_command, handle_attribute, set_attribute, parse_flag}
use itgv.Connection.Mpsc.{sent}
use itgv.Connection.Ports.{allocated_ports, freed_ports}
use itgv.Connection.Remote.Growth.{Grows}
use itgv.Connection.Remote.Log.{Log}
use itgv.Connection.State.{new}
use itgv.Connection.System.Answering.{turn, IsServed, reached-IsServed}
use itgv.Connection.System.Closing.{reached_closing}
use itgv.Connection.System.Hang.{Hangs, reached_later, reached_hang}
use itgv.Connection.System.Ports.{reached_ports}
use itgv.Connection.System.Progress.{IsRefused, on_command-IsRefused}
use itgv.Connection.System.Safety.{reached, reached_lockstep, reached_answer-sent, reached_stuck}
use itgv.Connection.System.Turns.{IsOver, IsHung}
use itgv.Connection.System.{
  System, Task, frame_task, conn_task, run, init, step, step_frame, step_conn,
}
use itgv.Connection.System.Sequential.Refines.{seen_after, reached-exchanges}
use itgv.Connection.System.Sequential.Rounds.{rounds, state_of}
use itgv.Connection.System.Sequential.{serving, exchanges}
use itgv.Connection.System.Streams.{so_far, reached-Streams}
use itgv.Connection.Tasks.Streams.{Streams}
use itgv.Connection.Tasks.PortMoves.{held}
use itgv.Connection.Tasks.{conn_done, connected, port_line, on_command, on_other}
use itgv.FtlCodec.{FtlCommand, dot, attribute, decode, decode_command, decode_attribute}
use itgv.Std.Decimal.{display}
use itgv.Std.HashMap.{empty, insert, get}
use itgv.Std.Slice.{windows, position}
use itgv.Std.Text.{lit, text_eq, contains, split, trim}
use itgv.Std.Utf8.{Bytes, as_bytes, from_utf8_lossy}
use itgv.Tests.Demo.{services, framed, commands, replies, env, hands_over, one_round}
use itgv.Tests.Runs.{dot_input, after_dot}

-- The connection of these examples.
abbrev Demo : Type 0
Demo = System services (framed _) commands replies

abbrev at_end : List Task → Bytes → Demo
at_end ts input = reached services (framed _) commands replies ts env input

reached_ports_example :
    allocated_ports (at_end one_round dot_input).env.events
    ≡ held (at_end one_round dot_input).conn ++ freed_ports (at_end one_round dot_input).env.events
reached_ports_example =
    reached_ports services (framed _) commands replies one_round env dot_input refl

reached_closing_example :
    ((at_end (frame_task ∷ [] ++ conn_task ∷ one_round) []).conn ≡ conn_done)
    × (allocated_ports (at_end (frame_task ∷ [] ++ conn_task ∷ one_round) []).env.events
        ≡ freed_ports (at_end (frame_task ∷ [] ++ conn_task ∷ one_round) []).env.events)
unfolding run init step_frame decode windows position
reached_closing_example =
    reached_closing services (framed _) commands replies (frame_task ∷ []) one_round env [] refl
      refl

reached_answer-sent_example :
    (ch : replies.Chan) × (replies.send
        (at_end (hands_over ++ conn_task ∷ []) dot_input).to_frame
        (send (port_line (display 9000) ∷ []))
      ≡ sent ch)
reached_answer-sent_example =
    reached_answer-sent services (framed _) commands replies (hands_over ++ conn_task ∷ []) env
      dot_input (record new { rtp_port = some 9000 }) (send (port_line (display 9000) ∷ []))
      connected after_dot

reached_lockstep_example :
    (length (at_end hands_over dot_input).to_conn.messages
        + length (at_end hands_over dot_input).to_frame.messages
      ≤ 1)
    × ((step services (framed _) commands replies frame_task (at_end hands_over dot_input) ≡ none)
        ⊎ (step services (framed _) commands replies conn_task (at_end hands_over dot_input)
            ≡ none))
reached_lockstep_example =
    reached_lockstep services (framed _) commands replies hands_over env dot_input

abbrev bad_flag_input : Bytes
bad_flag_input = lit "Video:x\r\n\r\n"

abbrev bad_flag : FtlCommand
bad_flag = attribute (insert (lit "value") (lit "x") (insert (lit "key") (lit "Video") empty))

bad_flag-IsRefused : IsRefused bad_flag
unfolding get insert text_eq
bad_flag-IsRefused = (
  lit "Video",
  lit "x",
  refl,
  refl,
  record { flag = inl refl; not_true = λ e. cc; not_false = λ e. cc },
)

reached_stuck_example :
    IsOver services
      (framed _)
      (at_end (hands_over ++ conn_task ∷ []) bad_flag_input).frames
      (at_end (hands_over ++ conn_task ∷ []) bad_flag_input).conn
    ⊎ IsHung services
        (framed _)
        (at_end (hands_over ++ conn_task ∷ []) bad_flag_input).frames
        (at_end (hands_over ++ conn_task ∷ []) bad_flag_input).conn
unfolding run init step_frame step_conn new on_command on_other handle_command handle_attribute
    set_attribute parse_flag decode decode_command decode_attribute windows position contains
    from_utf8_lossy text_eq split trim get insert
reached_stuck_example =
    reached_stuck services (framed _) commands replies (hands_over ++ conn_task ∷ []) env
      bad_flag_input refl refl

reached_hang_example :
    Hangs services
      (framed _)
      (at_end hands_over bad_flag_input).env
      new
      (reached_later services
        (framed _)
        commands
        replies
        hands_over
        one_round
        env
        bad_flag_input).frames
      (reached_later services
        (framed _)
        commands
        replies
        hands_over
        one_round
        env
        bad_flag_input).conn
      (reached_later services
        (framed _)
        commands
        replies
        hands_over
        one_round
        env
        bad_flag_input).env
unfolding run init step_frame decode decode_command decode_attribute windows position contains
    from_utf8_lossy text_eq split trim insert
reached_hang_example =
    reached_hang services (framed _) commands replies hands_over one_round env bad_flag_input new
      bad_flag refl refl bad_flag-IsRefused

on_command-IsRefused_example : IsRefused bad_flag
unfolding on_command on_other handle_command handle_attribute set_attribute parse_flag text_eq get
    insert
on_command-IsRefused_example =
    on_command-IsRefused services bad_flag new new env ((lit "Video", refl), (lit "x", refl)) refl

abbrev connect_input : Bytes
connect_input = lit "CONNECT 77 $aa\r\n\r\n"

reached-Streams_example :
    Streams
      (so_far [])
      (at_end one_round connect_input).env.events
      (at_end one_round connect_input).conn
reached-Streams_example =
    reached-Streams services (framed _) commands replies one_round env connect_input

reached-IsServed_example :
    IsServed (run services (framed _) commands replies turn (at_end hands_over dot_input)).frames
unfolding run init step_frame decode decode_command windows position contains from_utf8_lossy
    text_eq as_bytes
reached-IsServed_example =
    reached-IsServed services (framed _) commands replies hands_over env dot_input new dot refl refl
      (λ bad. bad)

reached-exchanges_example :
    ((us : List Task) × (m : ℕ) × (seen_after services
          (framed _)
          commands
          replies
          hands_over
          us
          env
          dot_input
        ≡ state_of services
            (framed _)
            (exchanges services (framed _) m (serving env dot_input new)))
      × Grows
          (at_end hands_over dot_input).env.events
          (seen_after services (framed _) commands replies hands_over us env dot_input).env.events)
    × (seen_after services (framed _) commands replies [] (rounds 2) env dot_input
        ≡ state_of services
            (framed _)
            (exchanges services (framed _) 2 (serving env dot_input new)))
reached-exchanges_example =
    reached-exchanges services (framed _) commands replies hands_over 2 env dot_input
