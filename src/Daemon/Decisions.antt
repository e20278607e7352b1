-- ===== src/Daemon/Decisions.antt =====
-- src/daemon.rs: the decisions that the daemon hands to the receiver, over any sequence of requests and of steps of its
-- tasks. A task that `stop` aborted may still run until it waits next, so that any step may follow any other.
use adhoc_cross_device_conne.Prelude.{
  ℕ, ◌≡◌, Bool, List, [], ◌∷◌, ◌++◌, Option, none, some, Option-cases, inl, inr, arith,
}
use adhoc_cross_device_conne.Daemon.{
  State, Pending, initial, start_receive, stop, decide, start_send, radio_ready, incoming, finish,
  panic,
}

-- A request, or a step of a task: the radio is ready, a transfer asks under a number, the task's last block, a panic.
pub data Move : Type 0 where
  receives : Option ℕ → Move
  stops : Move
  decides : Bool → Move
  sends : Bool → Move
  is_ready : Move
  asks : ℕ → Move
  finishes : Bool → Move
  panics : Move

abbrev moved : Move → State → State
moved (receives seconds) s = (start_receive seconds s).1
moved stops s = (stop s).1
moved (decides accepted) s = (decide accepted s).2
moved (sends has_host) s = (start_send has_host s).1
moved is_ready s = radio_ready s
moved (asks n) s = incoming n s
moved (finishes is_ok) s = finish is_ok s
moved panics s = panic s

-- The numbers of the transfers that are decided on, and of those that ask, each in their order.
abbrev number_of : Option (ℕ × Bool) → List ℕ
number_of none = []
number_of (some (n, accepted)) = n ∷ []

abbrev handed : Move → State → List ℕ
handed (decides accepted) s = number_of (decide accepted s).1
handed other s = []

abbrev pub decided : List Move → State → List ℕ
decided [] s = []
decided (e ∷ es) s = handed e s ++ decided es (moved e s)

abbrev pub asked : List Move → List ℕ
asked [] = []
asked (asks n ∷ es) = n ∷ asked es
asked (e ∷ es) = asked es

-- The answers that are handed on, and all answers that the user gives.
abbrev answer_of : Option (ℕ × Bool) → List Bool
answer_of none = []
answer_of (some (n, accepted)) = accepted ∷ []

abbrev answered : Move → State → List Bool
answered (decides accepted) s = answer_of (decide accepted s).1
answered other s = []

abbrev pub answers : List Move → State → List Bool
answers [] s = []
answers (e ∷ es) s = answered e s ++ answers es (moved e s)

abbrev pub given : List Move → List Bool
given [] = []
given (decides accepted ∷ es) = accepted ∷ given es
given (e ∷ es) = given es

-- Some of a list's members, in their order.
pub data Sublist {A : Type 0} : List A → List A → Type 0 where
  none_of : Sublist [] []
  skip : {xs ys : List A} (y : A) → Sublist xs ys → Sublist xs (y ∷ ys)
  keep : {xs ys : List A} (x : A) → Sublist xs ys → Sublist (x ∷ xs) (x ∷ ys)

abbrev waiting : Option Pending → List ℕ
waiting none = []
waiting (some p) = p.decision ∷ []

skip_waiting : {xs ys : List ℕ} (o : Option Pending) → Sublist xs ys → Sublist xs (waiting o ++ ys)
skip_waiting none h = h
skip_waiting (some p) h = skip p.decision h

start_receive-pending :
    (seconds : Option ℕ) (s : State) → (start_receive seconds s).1.pending ≡ s.pending
unfolding start_receive
start_receive-pending seconds s = ground arith

start_send-pending : (has_host : Bool) (s : State) → (start_send has_host s).1.pending ≡ s.pending
unfolding start_send
start_send-pending has_host s = ground arith

decide-waiting :
    (accepted : Bool) (s : State) (xs ys : List ℕ)
    → Sublist xs (waiting (decide accepted s).2.pending ++ ys)
    → Sublist (number_of (decide accepted s).1 ++ xs) (waiting s.pending ++ ys)
unfolding decide
decide-waiting accepted s xs ys h = elim (Option-cases s.pending) [
  | inl e ↦
      let h' : Sublist xs (waiting s.pending ++ ys) = rw (decide, e) at h in
      rw (decide, e) (rw e at h')
  | inr (p, e) ↦
      (let h' : Sublist xs ys = rw (decide, e) at h in rw (decide, e) (keep p.decision h'))
]

decided-Sublist :
    (es : List Move) (s : State) → Sublist (decided es s) (waiting s.pending ++ asked es)
unfolding radio_ready incoming finish panic stop
decided-Sublist [] s = skip_waiting s.pending none_of
decided-Sublist (receives seconds ∷ es) s =
    rw (start_receive-pending seconds s) at (decided-Sublist es (start_receive seconds s).1)
decided-Sublist (stops ∷ es) s = skip_waiting s.pending (decided-Sublist es initial)
decided-Sublist (decides accepted ∷ es) s =
    decide-waiting accepted s (decided es (decide accepted s).2) (asked es)
      (decided-Sublist es (decide accepted s).2)
decided-Sublist (sends has_host ∷ es) s =
    rw (start_send-pending has_host s) at (decided-Sublist es (start_send has_host s).1)
decided-Sublist (is_ready ∷ es) s = decided-Sublist es (radio_ready s)
decided-Sublist (asks n ∷ es) s = skip_waiting s.pending (decided-Sublist es (incoming n s))
decided-Sublist (finishes is_ok ∷ es) s = decided-Sublist es (finish is_ok s)
decided-Sublist (panics ∷ es) s = decided-Sublist es (panic s)

answered-Sublist :
    (accepted : Bool) (s : State) (xs ys : List Bool)
    → Sublist xs ys
    → Sublist (answer_of (decide accepted s).1 ++ xs) (accepted ∷ ys)
unfolding decide
answered-Sublist accepted s xs ys h = elim (Option-cases s.pending) [
  | inl e ↦ rw (decide, e) (skip accepted h)
  | inr (p, e) ↦ rw (decide, e) (keep accepted h)
]

answers-Sublist : (es : List Move) (s : State) → Sublist (answers es s) (given es)
answers-Sublist [] s = none_of
answers-Sublist (decides accepted ∷ es) s =
    answered-Sublist accepted s (answers es (decide accepted s).2) (given es)
      (answers-Sublist es (decide accepted s).2)
answers-Sublist (receives seconds ∷ es) s = answers-Sublist es (start_receive seconds s).1
answers-Sublist (stops ∷ es) s = answers-Sublist es (stop s).1
answers-Sublist (sends has_host ∷ es) s = answers-Sublist es (start_send has_host s).1
answers-Sublist (is_ready ∷ es) s = answers-Sublist es (radio_ready s)
answers-Sublist (asks n ∷ es) s = answers-Sublist es (incoming n s)
answers-Sublist (finishes is_ok ∷ es) s = answers-Sublist es (finish is_ok s)
answers-Sublist (panics ∷ es) s = answers-Sublist es (panic s)

-- Over any sequence of requests and of steps of tasks from the daemon's start, the transfers whose decisions are handed
-- to the receiver are some of those that asked, each at most as often as it asked and in the order in which they asked,
-- and the answers handed on are some of those that the user gave, in their order.
pub decide_once :
    (es : List Move)
    → Sublist (decided es initial) (asked es) × Sublist (answers es initial) (given es)
decide_once es = (decided-Sublist es initial, answers-Sublist es initial)
