-- ===== src/Coordinator/Gather/Total.antt =====
-- coordinator.py: each probe of a call of `gather` has its execution, and what the call raises.
use codewizard_sherpa.Prelude.{List}
use codewizard_sherpa.Prelude.Dict.{Dict}
