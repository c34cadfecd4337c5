-- ===== src/Beacon/Reports/Order.antt =====
-- The report does not depend on the order in which the subjects were observed.
use cavi_erp.Prelude.{
  ◌≡◌, refl, sym, ap, ◌∙◌, String, Bool, true, List, [], ◌∷◌, string_eq, length, contains, arith,
}
use cavi_erp.Beacon.Alerts.{Severity, severity_name}
use cavi_erp.Beacon.Reports.{is_dead_letter, severities, kpi_map, summarize_kpis}
use cavi_erp.Beacon.Reports.Counts.{
  count_if, count_new, has_severity, plain_buckets, count_if-true, summarize_kpis-plain,
}

-- The same subjects in another order.
pub data Reordered : List String → List String → Type 0 where
  unmoved : (xs : List String) → Reordered xs xs
  keep : (x : String) {xs ys : List String} → Reordered xs ys → Reordered (x ∷ xs) (x ∷ ys)
  swap : (x y : String) (xs : List String) → Reordered (x ∷ y ∷ xs) (y ∷ x ∷ xs)
  and_then : {xs ys zs : List String} → Reordered xs ys → Reordered ys zs → Reordered xs zs

count_if-Reordered :
    (test : String → Bool) {xs ys : List String}
    → Reordered xs ys
    → count_if test xs ≡ count_if test ys
count_if-Reordered test (unmoved xs) = refl
count_if-Reordered test (keep x r) = rw (count_if-Reordered test r) refl
count_if-Reordered test (swap x y xs) = ground arith
count_if-Reordered test (and_then r q) = count_if-Reordered test r ∙ count_if-Reordered test q

length-Reordered : {xs ys : List String} → Reordered xs ys → length xs ≡ length ys
length-Reordered {xs} {ys} r =
    sym (count_if-true xs) ∙ count_if-Reordered (λ _. true) r ∙ count_if-true ys

-- What was seen counts as a set.
count_new-seen :
    (s t xs : List String)
    → ((z : String) → contains z s ≡ contains z t)
    → count_new s xs ≡ count_new t xs
count_new-seen s t [] same = refl
count_new-seen s t (x ∷ xs) same = ground (
  arith,
  same x,
  count_new-seen s t xs same,
  count_new-seen (x ∷ s) (x ∷ t) xs (λ z. rw (same z) refl),
)

count_new-Reordered :
    {xs ys : List String}
    → Reordered xs ys
    → (seen : List String) → count_new seen xs ≡ count_new seen ys
count_new-Reordered (unmoved xs) seen = refl
count_new-Reordered (keep x {xs = xs} {ys = ys} r) seen =
    ground (arith, count_new-Reordered r seen, count_new-Reordered r (x ∷ seen))
count_new-Reordered (swap x y xs) seen = ground (
  arith,
  string_eq.beq_iff x y,
  string_eq.beq_iff y x,
  ap (λ t. contains t seen),
  count_new-seen (x ∷ y ∷ seen) (y ∷ x ∷ seen) xs (λ z. ground arith),
)
count_new-Reordered (and_then r q) seen = count_new-Reordered r seen ∙ count_new-Reordered q seen

plain_buckets-Reordered :
    {xs ys : List String}
    → Reordered xs ys
    → (ss : List Severity) → plain_buckets xs ss ≡ plain_buckets ys ss
plain_buckets-Reordered r [] = refl
plain_buckets-Reordered r (s ∷ ss) =
    rw (plain_buckets-Reordered r ss, count_if-Reordered (has_severity (severity_name s)) r) refl

-- Whatever the order in which the same subjects are observed, the report has the same numbers.
pub summarize_kpis-Reordered :
    {xs ys : List String} → Reordered xs ys → summarize_kpis xs ≡ summarize_kpis ys
summarize_kpis-Reordered {xs} {ys} r =
    summarize_kpis-plain xs
    ∙ (λ i.
        kpi_map (length-Reordered r i) (count_new-Reordered r [] i)
          (count_if-Reordered is_dead_letter r i) (plain_buckets-Reordered r severities i))
    ∙ sym (summarize_kpis-plain ys)
