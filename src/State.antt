-- ===== src/State.antt =====
-- libmachine/state/state.go: the states of a host, which Go keeps as an `int`.
use machine.Base.{List, [], ◌∷◌, none, some, get_elem?}
use machine.Base.Int.{ℤ, pos, negsuc}
use machine.Text.{Text, bytes}

abbrev pub State : Type 0
State = ℤ

abbrev pub no_state : State
no_state = pos 0

abbrev pub running : State
running = pos 1

abbrev pub paused : State
paused = pos 2

abbrev pub saved : State
saved = pos 3

abbrev pub stopped : State
stopped = pos 4

abbrev pub stopping : State
stopping = pos 5

abbrev pub starting : State
starting = pos 6

abbrev pub error_state : State
error_state = pos 7

abbrev pub timeout : State
timeout = pos 8

abbrev states : List Text
states =
    []
    ∷ bytes "Running"
    ∷ bytes "Paused"
    ∷ bytes "Saved"
    ∷ bytes "Stopped"
    ∷ bytes "Stopping"
    ∷ bytes "Starting"
    ∷ bytes "Error"
    ∷ bytes "Timeout"
    ∷ []

-- `State.String`: empty for a number that names no state.
unfoldable pub state_string : State → Text
state_string (pos n) = elim (get_elem? states n) [ none ↦ [] | some t ↦ t ]
state_string (negsuc n) = []
