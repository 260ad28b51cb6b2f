-- ===== src/Ori/ReleaseManager/Tests.antt =====
-- Runs of a request.
use itoyori.Prelude.{ℕ, zero, suc, ◌≡◌, refl, some, arith, max}
use itoyori.Ori.ReleaseManager.{RmaData, request_release}
use itoyori.Ori.ReleaseManager.Requests.{Raises, Raised, request_release-Raised}

-- Another rank requests epoch 6 after the value 4 was read and before the first compare-and-swap, and
-- another one epoch 7 before the second.
abbrev asked : RmaData
asked = record { current_epoch = 5; requested_epoch = 4 }

abbrev others : ℕ → RmaData → RmaData
others zero d = record d { requested_epoch = max d.requested_epoch 6 }
others (suc zero) d = record d { requested_epoch = max d.requested_epoch 7 }
others (suc (suc n)) d = d

others-Raises : Raises others
others-Raises zero d = omega arith
others-Raises (suc zero) d = omega arith
others-Raises (suc (suc n)) d = omega arith

-- Two compare-and-swaps fail, and the third succeeds.
request_run : request_release others 3 0 4 8 asked ≡ some (record asked { requested_epoch = 8 })
unfolding request_release
request_run = refl

request_release-Raised_example : Raised others 6 0 8 asked (request_release others 6 0 4 8 asked)
request_release-Raised_example =
    request_release-Raised others 8 others-Raises 4 0 4 asked (omega arith) (omega arith)
