-- ===== src/Daemon.antt =====
-- src/daemon.rs: the daemon's state and its operations, and what the task that it spawns does to the state.
-- Each holds the lock from its first read of the state to its last write, so that it is one step. Names, files
-- and the radio are left out: what the operations decide rests on the fields that are here.
pub mod Phases
pub mod Decisions
use adhoc_cross_device_conne.Prelude.Bytes.{codes}
use adhoc_cross_device_conne.Prelude.{
  List, bytes_eq, ℕ, Bool, true, false, Option, some, none, not, in_range, if◌then◌else◌,
}

-- The strings that `phase` takes.
pub data Phase : Type 0 where
  idle starting receiving sending error : Phase

-- The handle of the spawned task: whether it is finished.
pub record Task : Type 0 where
  pub is_finished : Bool

-- A transfer that waits for a decision, by the receiver's own number for it.
pub record Pending : Type 0 where
  pub decision : ℕ

pub record State : Type 0 where
  pub phase : Phase
  pub task : Option Task
  pub pending : Option Pending

pub data Message : Type 0 where
  bad_seconds already_receiving window_starting stopped nothing_waiting approved rejected : Message
  needs_host another_active send_started phase_only unknown_operation : Message

pub record Reply : Type 0 where
  pub is_ok : Bool
  pub state : Phase
  pub message : Message

-- `run`
abbrev pub initial : State
initial = record { phase = idle; task = none; pending = none }

-- `s.task.as_ref().is_some_and(|t| !t.is_finished())`
unfoldable pub is_active : State → Bool
is_active s = elim s.task [ none ↦ false | some t ↦ not t.is_finished ]

abbrev spawned : Option Task
spawned = some (record { is_finished = false })

-- `RECEIVE_SECONDS` is 1..=3600 in src/airdrop/mod.rs; a request without seconds asks for 600.
unfoldable pub start_receive : Option ℕ → State → Reply × State
start_receive requested s =
    let seconds : ℕ = elim requested [ some n ↦ n | none ↦ 600 ] in
    if not (in_range 1 3600 seconds)
    then (record { is_ok = false; state = s.phase; message = bad_seconds }, s)
    else if is_active s
    then (record { is_ok = true; state = s.phase; message = already_receiving }, s)
    else (
      record { is_ok = true; state = starting; message = window_starting },
      record { phase = starting; task = spawned; pending = s.pending },
    )

unfoldable pub stop : State → Reply × State
stop s = (record { is_ok = true; state = idle; message = stopped }, initial)

-- The reply, the decision that is sent to the receiver, if any, and the state.
unfoldable pub decide : Bool → State → Reply × Option (ℕ × Bool) × State
decide accepted s = elim s.pending [
  | none ↦ (record { is_ok = false; state = s.phase; message = nothing_waiting }, none, s)
  | some p ↦ (
    record { is_ok = true; state = s.phase; message = if accepted then approved else rejected },
    some (p.decision, accepted),
    record { phase = s.phase; task = s.task; pending = none },
  )
]

unfoldable pub start_send : Bool → State → Reply × State
start_send has_host s =
    if not has_host
    then (record { is_ok = false; state = idle; message = needs_host }, s)
    else if is_active s
    then (record { is_ok = false; state = s.phase; message = another_active }, s)
    else (
      record { is_ok = true; state = sending; message = send_started },
      record { phase = sending; task = spawned; pending = s.pending },
    )

-- What the spawned task does: the radio is ready, a transfer asks for a decision, and the end of its work.
unfoldable pub radio_ready : State → State
radio_ready s = record { phase = receiving; task = s.task; pending = s.pending }

unfoldable pub incoming : ℕ → State → State
incoming n s = record { phase = s.phase; task = s.task; pending = some (record { decision = n }) }

unfoldable pub finish : Bool → State → State
finish is_ok s = record { phase = if is_ok then idle else error; task = none; pending = s.pending }

-- A task that ends without its last block, by a panic, leaves its handle behind, which is finished then.
unfoldable pub panic : State → State
panic s = record {
  phase = s.phase;
  task = elim s.task [ none ↦ none | some t ↦ some (record { is_finished = true }) ];
  pending = s.pending;
}

-- `handle`, from the name of the operation; `discover` browses for peers and leaves the state alone.
unfoldable pub handle : (State → Reply) → List ℕ → Option ℕ → Bool → State → Reply × State
handle discover op seconds has_host s =
    if bytes_eq op (codes "status")
    then (record { is_ok = true; state = s.phase; message = phase_only }, s)
    else if bytes_eq op (codes "receive")
    then start_receive seconds s
    else if bytes_eq op (codes "stop")
    then stop s
    else if bytes_eq op (codes "approve")
    then ((decide true s).0, (decide true s).2)
    else if bytes_eq op (codes "reject")
    then ((decide false s).0, (decide false s).2)
    else if bytes_eq op (codes "send")
    then start_send has_host s
    else if bytes_eq op (codes "peers")
    then (discover s, s)
    else (record { is_ok = false; state = idle; message = unknown_operation }, s)
