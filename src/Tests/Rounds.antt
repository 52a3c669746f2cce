-- ===== src/Tests/Rounds.antt =====
-- core/transport/mqtt/session.go, `Handle`, on a CONNECT that is accepted and a PUBLISH.
use broker_message.Base.{◌≡◌, refl, false, arith, ◌++◌, bytes_eq, ok}
use broker_message.Storage.Memory.{MemDb, mem_badger}
use broker_message.Session.{State, count, connections_inc, write, write_conn}
use broker_message.Session.Handle.{handle_connect, log_in, Course, deferred, handle}
use broker_message.Session.Rounds.{Runs, handle-Runs}
use broker_message.Tests.Logins.{login, frame, rest, state, env, frame_read}

-- A connection of a broker that asks for no password.
abbrev open_state : State MemDb
open_state = record state { session = record state.session { auth_req = false } }

abbrev accepted : State MemDb
accepted = (handle_connect bytes_eq login (count connections_inc open_state)).0

handle_connect_lem :
    handle_connect bytes_eq login (count connections_inc open_state) ≡ (accepted, ok tt)
unfolding handle_connect log_in write write_conn
handle_connect_lem = refl

handle-Runs_example :
    (c : Course MemDb) × Runs bytes_eq env 0 rest accepted c
    × (handle bytes_eq env (frame ++ rest) open_state ≡ deferred c)
handle-Runs_example =
    handle-Runs bytes_eq env (frame ++ rest) rest login open_state accepted frame_read
      handle_connect_lem (omega arith, omega arith)
