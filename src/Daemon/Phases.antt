-- ===== src/Daemon/Phases.antt =====
-- src/daemon.rs: what the daemon answers when its task ended while a transfer waits.
use adhoc_cross_device_conne.Prelude.{◌≡◌, refl, Bool, true, false, some}
use adhoc_cross_device_conne.Daemon.{Pending, State, is_active, decide, finish}

-- When the task ends while a transfer waits, the transfer goes on waiting, and its approval is reported as done
-- though no task is left to take it.
pub finish_keeps_pending :
    (s : State) (is_ok : Bool) (p : Pending)
    → s.pending ≡ some p
    → (is_active (finish is_ok s) ≡ false) × ((decide true (finish is_ok s)).0.is_ok ≡ true)
unfolding is_active finish decide
finish_keeps_pending s is_ok p h = (refl, rw h refl)
