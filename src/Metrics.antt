-- ===== src/Metrics.antt =====
-- shared/metrics.py: counters keyed by a name and sorted labels. Values are natural numbers; a
-- latency is added in clock units.
mod Tests
use cavi_erp.Prelude.{
  ℕ, ◌+◌, ◌≡◌, refl, String, List, [], ◌∷◌, Option, none, some, Eq, pair_eq, list_eq, string_eq,
  ◌<>◌, if◌then◌else◌, ◌==◌, arith,
}
use cavi_erp.Prelude.Int.{show_ℕ}
use cavi_erp.Dict.{Dict, get, put}
use cavi_erp.Dict.Laws.{get-put}
use cavi_erp.Json.Dumps.{sort_keys, join}

abbrev pub Labels : Type 0
Labels = List (String × String)

abbrev pub Metrics : Type 0
Metrics = Dict (String × Labels) ℕ

abbrev or_zero : Option ℕ → ℕ
or_zero none = 0
or_zero (some n) = n

-- `Metrics.value`
unfoldable pub value : String → Labels → Metrics → ℕ
value name labels counters = or_zero (get (name, sort_keys labels) counters)

-- `Metrics.inc`: a `defaultdict` starts at zero.
unfoldable pub inc : String → ℕ → Labels → Metrics → Metrics
unfolding value
inc name amount labels counters =
    put (name, sort_keys labels) (value name labels counters + amount) counters

label_texts : Labels → List String
label_texts [] = []
label_texts ((k, v) ∷ labels) = (k <> "=\"" <> v <> "\"") ∷ label_texts labels

-- `Metrics._render`
unfoldable pub render : String → Labels → String
unfolding label_texts join
render name [] = name
render name labels = name <> "{" <> join "," (label_texts labels) <> "}"

-- An increment adds its amount to the one counter of its name and labels, in whatever order the
-- labels are given, and leaves every other counter as it was.
pub value-inc :
    (name other : String) (amount : ℕ) (labels others : Labels) (counters : Metrics)
    → value other others (inc name amount labels counters) ≡ (
        if ◌==◌ {K = String × Labels} (name, sort_keys labels) (other, sort_keys others)
        then value name labels counters + amount
        else value other others counters)
unfolding inc
value-inc name other amount labels others counters = ground (
  arith,
  get-put (name, sort_keys labels) (other, sort_keys others) (value name labels counters + amount)
      counters,
)

render_two_labels :
    render "cavi_events_emitted_total" (("agent", "forge") ∷ ("subject", "x") ∷ [])
    ≡ "cavi_events_emitted_total{agent=\"forge\",subject=\"x\"}"
unfolding render
render_two_labels = refl
