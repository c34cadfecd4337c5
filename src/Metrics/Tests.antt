-- ===== src/Metrics/Tests.antt =====
-- Runs of the counters.
use cavi_erp.Prelude.{◌≡◌, refl, [], ◌∷◌}
use cavi_erp.Dict.{get, put}
use cavi_erp.Json.Dumps.{sort_keys}
use cavi_erp.Metrics.{Metrics, value, inc}

abbrev counted : Metrics
counted = (("hits", ("agent", "forge") ∷ []), 3) ∷ []

counts_on :
    value "hits" (("agent", "forge") ∷ []) (inc "hits" 2 (("agent", "forge") ∷ []) counted) ≡ 5
unfolding value inc get put sort_keys
counts_on = refl
