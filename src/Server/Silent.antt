-- ===== src/Server/Silent.antt =====
-- server.go: the connections that have sent nothing yet, closed at shutdown. Every call holds the
-- mutex, so concurrent calls are a sequence. A connection is a number.
pub mod Fate
pub mod Shutdown
use webhttp.Prelude.{
  ℕ, Bool, true, false, ◌||◌, not, List, [], ◌∷◌, ◌++◌, ◌==◌, if◌then◌else◌, keep,
}

abbrev pub has_conn : ℕ → List ℕ → Bool
has_conn c [] = false
has_conn c (d ∷ ds) = d == c || has_conn c ds

-- `closed` holds the connections that were closed, the earliest first.
pub record SilentConns : Type 0 where
  pub conns : List ℕ
  pub shutdown : Bool
  pub closed : List ℕ

abbrev pub no_conns : SilentConns
no_conns = record { conns = []; shutdown = false; closed = [] }

-- http.StateNew, or any other state
pub data ConnState : Type 0 where
  state_new state_other : ConnState

-- `s.conns[conn] = struct{}{}` and `delete(s.conns, conn)`, which does nothing on a nil map
abbrev add_conn : ℕ → List ℕ → List ℕ
add_conn c cs = if has_conn c cs then cs else c ∷ cs

abbrev delete_conn : ℕ → List ℕ → List ℕ
delete_conn c cs = keep (λ d. not (d == c)) cs

unfoldable pub track : ℕ → ConnState → SilentConns → SilentConns
track c state_new s =
    if s.shutdown
    then record s { closed = s.closed ++ c ∷ [] }
    else record s { conns = add_conn c s.conns }
track c state_other s = record s { conns = delete_conn c s.conns }

-- The order in which a map's keys are ranged over is left open by Go; any order closes the same ones.
unfoldable pub close_all : SilentConns → SilentConns
close_all s = record { shutdown = true; conns = []; closed = s.closed ++ s.conns }

-- what the server reports
pub data ConnEvent : Type 0 where
  conn_state : ℕ → ConnState → ConnEvent
  on_shutdown : ConnEvent

unfoldable pub step : ConnEvent → SilentConns → SilentConns
unfolding track close_all
step (conn_state c state) s = track c state s
step on_shutdown s = close_all s

unfoldable pub run : List ConnEvent → SilentConns → SilentConns
unfolding step
run [] s = s
run (e ∷ es) s = run es (step e s)
