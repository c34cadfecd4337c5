-- ===== src/Beacon/Tests.antt =====
-- Runs of the alerts.
use cavi_erp.Prelude.{◌≡◌, refl, none, [], ◌∷◌, string_eq, arith}
use cavi_erp.Dict.{get}
use cavi_erp.Json.{Object, str}
use cavi_erp.Beacon.Alerts.{Display, Desk, critical, severity_for, notify, classify}
use cavi_erp.Beacon.Dedup.{sent_for, sent_once, notify-Unidentified}

abbrev display : Display
display = record { repr = λ v. "…"; body = λ p. "{}" }

lost_money_is_critical : severity_for "deadletter.ledger.entry" ≡ critical
unfolding severity_for
lost_money_is_critical = refl

sent_once_example : sent_for "a:1" 300 (("a:1", 10) ∷ ("b:1", 12) ∷ ("a:1", 309) ∷ []) [] ≡ 1
unfolding get
sent_once_example = sent_once "a:1" 300 10 (("b:1", 12) ∷ ("a:1", 309) ∷ []) [] refl (omega arith)

abbrev first : Object
first = ("write_id", str "w1") ∷ ("decision", str "approve") ∷ []

abbrev second : Object
second = ("write_id", str "w2") ∷ ("decision", str "approve") ∷ []

abbrev desk : Desk
desk = record { last_sent = ("deadletter.forge.write.decision:", 10) ∷ []; delivered = [] }

notify-Unidentified_example :
    notify display ("log" ∷ "hermes" ∷ []) "deadletter.forge.write.decision" second none 200 desk
    ≡ (none, desk)
unfolding get classify
notify-Unidentified_example =
    notify-Unidentified display ("log" ∷ "hermes" ∷ []) "deadletter.forge.write.decision" first
      second none none 10 200 desk (refl, refl, refl, refl) (refl, refl, refl, refl) refl
      (omega arith)
