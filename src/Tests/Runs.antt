-- ===== src/Tests/Runs.antt =====
-- Runs of a whole connection on concrete input.
use itgv.Base.{◌≡◌, refl, some, [], ◌∷◌, ◌++◌}
use itgv.Connection.Handler.{send}
use itgv.Connection.Remote.{allocate_port}
use itgv.Connection.State.{new}
use itgv.Connection.System.Safety.{reached}
use itgv.Connection.System.{conn_task, run, init, step_frame, step_conn}
use itgv.Connection.Tasks.{answering, connected, port_line, on_command, on_dot}
use itgv.FtlCodec.{decode, decode_command}
use itgv.Std.Decimal.{display, digits}
use itgv.Std.Slice.{windows, position}
use itgv.Std.Text.{lit, text_eq, contains}
use itgv.Std.Utf8.{Bytes, as_bytes, from_utf8_lossy}
use itgv.Tests.Demo.{services, framed, commands, replies, env, hands_over}

abbrev pub dot_input : Bytes
dot_input = lit ".\r\n\r\n"

-- The command task has a port, and wants to tell it.
pub after_dot :
    (reached services (framed _) commands replies (hands_over ++ conn_task ∷ []) env dot_input).conn
    ≡ answering
        (record new { rtp_port = some 9000 })
        (send (port_line (display 9000) ∷ []))
        connected
unfolding run init step_frame step_conn new on_command on_dot allocate_port decode decode_command
    windows position contains from_utf8_lossy text_eq as_bytes display digits
after_dot = refl
