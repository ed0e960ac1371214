-- ===== src/Tests/FleetExamples.antt =====
-- The theorems on a server with several connections, at a concrete history of two clients.
use itgv.Base.{ℕ, ◌+◌, ◌≡◌, refl, List, [], ◌∷◌, count}
use itgv.Connection.Ports.{allocated_ports, freed_ports}
use itgv.Connection.Remote.{allocate_port}
use itgv.Connection.State.{new}
use itgv.Connection.System.{frame_task, conn_task, init, step_frame, step_conn}
use itgv.Connection.Tasks.{on_command, on_dot}
use itgv.FtlCodec.{decode, decode_command}
use itgv.Server.Connections.Exclusive.{GivesFree, HasPort, served_ports_exclusive}
use itgv.Server.Connections.Loop.{results, AllLive, served-AllLive}
use itgv.Server.Connections.Ports.{total, served, served_ports}
use itgv.Server.Connections.{Happening, accepted, polled, Server, serve, step_at, spawned}
use itgv.Server.{Came}
use itgv.Std.Result.{ok}
use itgv.Std.Slice.{windows, position}
use itgv.Std.Text.{Text, text_eq, contains}
use itgv.Std.Utf8.{Bytes, as_bytes, from_utf8_lossy}
use itgv.Tests.Demo.{services, framed, commands, replies, env}
use itgv.Tests.Runs.{dot_input}

-- Two clients ask for a port, the second one first.
abbrev history : List (Happening Text Bytes)
history =
    accepted (ok dot_input)
    ∷ accepted (ok dot_input)
    ∷ polled 1 frame_task
    ∷ polled 1 frame_task
    ∷ polled 1 conn_task
    ∷ polled 0 frame_task
    ∷ polled 0 frame_task
    ∷ polled 0 conn_task
    ∷ []

abbrev Demo : Type 0
Demo = Server services (framed _) commands replies

abbrev fleet : Demo
fleet = served services (framed _) commands replies history env

served_ports_example :
    count 9001 (allocated_ports fleet.env.events)
    ≡ total services (framed _) commands replies 9001 fleet.connections
      + count 9001 (freed_ports fleet.env.events)
served_ports_example = served_ports services (framed _) commands replies history env 9001 refl

served-AllLive_example :
    (sockets : List Bytes) × Came (results history) sockets fleet.ended_by
    × AllLive services (framed _) commands replies sockets fleet.connections
served-AllLive_example = served-AllLive services (framed _) commands replies history env

second_has_9000 : HasPort services (framed _) commands replies fleet.connections 1 9000
unfolding serve step_at spawned init new step_frame step_conn on_command on_dot allocate_port decode
    decode_command windows position contains from_utf8_lossy text_eq as_bytes
second_has_9000 = record { conn = _; is_there = refl; holds = refl }

only_free : GivesFree fleet.env.events
unfolding serve step_at spawned init new step_frame step_conn on_command on_dot allocate_port decode
    decode_command windows position contains from_utf8_lossy text_eq as_bytes
only_free = (refl, (refl, tt))

served_ports_exclusive_example : ◌≡◌ {A = ℕ} 1 1
served_ports_exclusive_example =
    served_ports_exclusive services (framed _) commands replies history env 1 1 9000 refl only_free
      second_has_9000 second_has_9000
