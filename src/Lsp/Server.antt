-- ===== src/Lsp/Server.antt =====
-- The loop of the server and the calls that steer it: lib/src/lsp/server/Server.cc. A turn of the
-- loop takes what `ReadRequest` and the scheduler did in it as its argument.
pub mod Failures
pub mod Tests
use no.Prelude.{ℕ, zero, suc, ◌+◌, Bool, true, false, List, [], ◌∷◌, ltb, if◌then◌else◌}

pub data State : Type 0 where
  suspended : State
  running : State
  exited : State

-- The state with `sucessive_failed_request_count`.
pub record Server : Type 0 where
  pub state : State
  pub sucessive_failed_request_count : ℕ

abbrev pub max_failed_request_count : ℕ
max_failed_request_count = 3

-- What a turn reads: nothing, or a request, after which the scheduler may tell of a wish to exit.
pub data Turn : Type 0 where
  read_failed : Turn
  scheduled : (exit_requested : Bool) → Turn

abbrev running_turn : Turn → Server → Server
running_turn read_failed s =
    let count = s.sucessive_failed_request_count + 1 in
    if ltb max_failed_request_count count
    then record { state = exited; sucessive_failed_request_count = count }
    else record s { sucessive_failed_request_count = count }
running_turn (scheduled exit_requested) s =
    if exit_requested
    then record { state = exited; sucessive_failed_request_count = 0 }
    else record s { sucessive_failed_request_count = 0 }

-- One turn of the `while (true)` of `Start`. A turn in another state reads nothing.
unfoldable pub turn : Turn → Server → Server
turn t s = elim s.state [ suspended ↦ s | running ↦ running_turn t s | exited ↦ s ]

-- `Start` from its first line, over the turns that follow.
unfoldable pub turns : List Turn → Server → Server
turns [] s = s
turns (t ∷ ts) s = turns ts (turn t s)

-- The lines of `Start` before its loop, whatever the state was.
abbrev pub begin : Server → Server
begin s = record { state = running; sucessive_failed_request_count = 0 }

unfoldable pub start : List Turn → Server → Server
start ts s = turns ts (begin s)

unfoldable pub suspend : Server → Server × Bool
suspend s = elim s.state [
  | suspended ↦ (s, true)
  | running ↦ (record s { state = suspended }, true)
  | exited ↦ (s, false)
]

unfoldable pub resume : Server → Server × Bool
resume s = elim s.state [
  | suspended ↦ (record s { state = running }, true)
  | running ↦ (s, true)
  | exited ↦ (s, false)
]

unfoldable pub stop : Server → Server × Bool
stop s = (record s { state = exited }, true)
