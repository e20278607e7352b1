-- ===== src/Examples/Service.antt =====
-- Adverts and the daemon at concrete inputs.
use adhoc_cross_device_conne.Prelude.{◌≡◌, refl, true, false, List, [], ◌∷◌, some}
use adhoc_cross_device_conne.Advert.{HandoffBle, parse}
use adhoc_cross_device_conne.Advert.Parsing.{bluez, raw, parse-framings}
use adhoc_cross_device_conne.Daemon.{State, receiving, initial, is_active, decide, finish}
use adhoc_cross_device_conne.Daemon.Phases.{finish_keeps_pending}
use adhoc_cross_device_conne.Daemon.Decisions
use adhoc_cross_device_conne.Daemon.Decisions.{
  Move, receives, is_ready, asks, decides, panics, finishes, decided, answers, given, Sublist,
  decide_once,
}

abbrev advert : HandoffBle
advert = record { status = 8; counter_iv = (0x2a, 0); tag = 0x99; ciphertext = 0xde ∷ 0xde ∷ [] }

parse-framings_example :
    (parse (bluez advert (1 ∷ [])) ≡ some advert) × (parse (raw advert (1 ∷ [])) ≡ some advert)
parse-framings_example = parse-framings advert (1 ∷ [])

abbrev asked : State
asked = record {
  phase = receiving;
  task = some (record { is_finished = false });
  pending = some (record { decision = 5 });
}

-- Two transfers ask; the first waits when the second comes, and is not answered; the last answer meets none that waits.
abbrev session : List Move
session =
    receives (some 60)
    ∷ is_ready
    ∷ asks 5
    ∷ asks 6
    ∷ decides true
    ∷ panics
    ∷ decides false
    ∷ finishes true
    ∷ []

decide_once_example :
    Sublist (decided session initial) (Decisions.asked session)
    × Sublist (answers session initial) (given session)
decide_once_example = decide_once session

finish_keeps_pending_example :
    (is_active (finish true asked) ≡ false) × ((decide true (finish true asked)).0.is_ok ≡ true)
finish_keeps_pending_example = finish_keeps_pending asked true (record { decision = 5 }) refl
