-- ===== src/Beacon/Reports/Counts.antt =====
-- The report's numbers are those of the observed subjects, in whatever order they were observed.
use cavi_erp.Prelude.{
  ◌≡◌, refl, ap, ℕ, suc, ◌+◌, String, Bool, true, ◌||◌, Bool-cases, inl, inr, List, [], ◌∷◌, ◌==◌,
  string_eq, if◌then◌else◌, length, contains, arith,
}
use cavi_erp.Dict.{get, put, keys}
use cavi_erp.Dict.Laws.{get-put}
use cavi_erp.Json.{Object}
use cavi_erp.Beacon.Alerts.{Severity, severity_name, severity_for}
use cavi_erp.Beacon.Reports.{
  Counter, count_of, add_count, tally, total, by_severity, dead_letters, is_dead_letter,
  bucket_fields, severities, number, kpi_map, summarize_kpis,
}

-- How many of the subjects pass the test.
abbrev pub count_if : (String → Bool) → List String → ℕ
count_if test [] = 0
count_if test (x ∷ xs) = let n = count_if test xs in if test x then suc n else n

-- How many different texts there are beyond those that were seen.
abbrev pub count_new : List String → List String → ℕ
count_new seen [] = 0
count_new seen (x ∷ xs) =
    let repeated = count_new seen xs in
    let fresh = count_new (x ∷ seen) xs in if contains x seen then repeated else suc fresh

-- The counts of the keys that pass the test.
sum_if : (String → Bool) → Counter → ℕ
sum_if test [] = 0
sum_if test ((k, n) ∷ counts) = let rest = sum_if test counts in if test k then n + rest else rest

sum_if-add_count :
    (test : String → Bool) (key : String) (n : ℕ) (counts : Counter)
    → sum_if test (add_count key n counts)
      ≡ (if test key then n + sum_if test counts else sum_if test counts)
unfolding sum_if add_count count_of get put
sum_if-add_count test key n [] = ground arith
sum_if-add_count test key n ((k, m) ∷ counts) = elim (Bool-cases (k == key)) [
  | inl same ↦ let is : k ≡ key = (string_eq.beq_iff k key).0 same in ground (arith, is, ap test is)
  | inr other ↦ ground (arith, sum_if-add_count test key n counts)
]

sum_if-tally :
    (test : String → Bool) (xs : List String) (counts : Counter)
    → sum_if test (tally xs counts) ≡ count_if test xs + sum_if test counts
unfolding tally
sum_if-tally test [] counts = omega arith
sum_if-tally test (x ∷ xs) counts =
    ground (arith, sum_if-tally test xs (add_count x 1 counts), sum_if-add_count test x 1 counts)

total-sum_if : (counts : Counter) → total counts ≡ sum_if (λ _. true) counts
unfolding total sum_if
total-sum_if [] = refl
total-sum_if ((k, n) ∷ counts) = ap (λ rest. n + rest) (total-sum_if counts)

dead_letters-sum_if : (counts : Counter) → dead_letters counts ≡ sum_if is_dead_letter counts
unfolding dead_letters sum_if
dead_letters-sum_if [] = refl
dead_letters-sum_if ((k, n) ∷ counts) = rw (dead_letters-sum_if counts) refl

-- The subject's severity has this name.
abbrev pub has_severity : String → String → Bool
has_severity name subject = severity_name (severity_for subject) == name

count_of-add_count :
    (key name : String) (n : ℕ) (counts : Counter)
    → count_of name (add_count key n counts)
      ≡ (if key == name then n + count_of name counts else count_of name counts)
unfolding add_count count_of
count_of-add_count key name n counts = elim (Bool-cases (key == name)) [
  | inl same ↦
      let is : key ≡ name = (string_eq.beq_iff key name).0 same in
      ground
        (arith, get-put key name (count_of key counts + n) counts, is, ap (λ k. get k counts) is)
  | inr other ↦ ground (arith, get-put key name (count_of key counts + n) counts)
]

count_of-by_severity :
    (name : String) (counts buckets : Counter)
    → count_of name (by_severity counts buckets)
      ≡ sum_if (has_severity name) counts + count_of name buckets
unfolding by_severity sum_if
count_of-by_severity name [] buckets = omega arith
count_of-by_severity name ((k, n) ∷ counts) buckets = ground (
  arith,
  count_of-by_severity name counts (add_count (severity_name (severity_for k)) n buckets),
  count_of-add_count (severity_name (severity_for k)) name n buckets,
)

contains-keys-put :
    (z k : String) (v : ℕ) (counts : Counter)
    → contains z (keys (put k v counts)) ≡ (z == k || contains z (keys counts))
unfolding put
contains-keys-put z k v [] = refl
contains-keys-put z k v ((j, w) ∷ counts) = ground (
  arith,
  contains-keys-put z k v counts,
  string_eq.beq_iff j k,
  string_eq.beq_iff z j,
  string_eq.beq_iff z k,
)

length-put :
    (k : String) (v : ℕ) (counts : Counter)
    → length (put k v counts)
      ≡ (if contains k (keys counts) then length counts else suc (length counts))
unfolding put
length-put k v [] = refl
length-put k v ((j, w) ∷ counts) =
    ground (arith, length-put k v counts, string_eq.beq_iff j k, string_eq.beq_iff k j)

length-tally :
    (xs seen : List String) (counts : Counter)
    → ((z : String) → contains z seen ≡ contains z (keys counts))
    → length (tally xs counts) ≡ length counts + count_new seen xs
unfolding tally add_count
length-tally [] seen counts same = omega arith
length-tally (x ∷ xs) seen counts same = elim (Bool-cases (contains x seen)) [
  | inl old ↦ ground (
    arith,
    length-tally xs seen (add_count x 1 counts) (λ z. ground (
      arith,
      same z,
      same x,
      string_eq.beq_iff z x,
      ap (λ t. contains t seen),
      contains-keys-put z x (count_of x counts + 1) counts,
    )),
    length-put x (count_of x counts + 1) counts,
    same x,
  )
  | inr new ↦ ground (
    arith,
    length-tally xs (x ∷ seen) (add_count x 1 counts)
        (λ z. ground (arith, same z, contains-keys-put z x (count_of x counts + 1) counts)),
    length-put x (count_of x counts + 1) counts,
    same x,
  )
]

abbrev pub plain_buckets : List String → List Severity → Object
plain_buckets xs [] = []
plain_buckets xs (s ∷ ss) =
    (severity_name s, number (count_if (has_severity (severity_name s)) xs)) ∷ plain_buckets xs ss

-- The numbers of the report, read off the observed subjects.
abbrev pub plain_kpis : List String → Object
plain_kpis xs =
    kpi_map (length xs) (count_new [] xs) (count_if is_dead_letter xs) (plain_buckets xs severities)

pub count_if-true : (xs : List String) → count_if (λ _. true) xs ≡ length xs
count_if-true [] = refl
count_if-true (x ∷ xs) = ap suc (count_if-true xs)

bucket_count :
    (xs : List String) (name : String)
    → count_of name (by_severity (tally xs []) []) ≡ count_if (has_severity name) xs
unfolding count_of sum_if get
bucket_count xs name =
    omega
      (arith, count_of-by_severity name (tally xs []) [], sum_if-tally (has_severity name) xs [])

bucket_fields-plain :
    (xs : List String) (ss : List Severity)
    → bucket_fields (by_severity (tally xs []) []) ss ≡ plain_buckets xs ss
unfolding bucket_fields
bucket_fields-plain xs [] = refl
bucket_fields-plain xs (s ∷ ss) =
    rw (bucket_fields-plain xs ss, bucket_count xs (severity_name s)) refl

total-tally : (xs : List String) → total (tally xs []) ≡ length xs
unfolding sum_if
total-tally xs =
    omega (arith, total-sum_if (tally xs []), sum_if-tally (λ _. true) xs [], count_if-true xs)

dead_letters-tally : (xs : List String) → dead_letters (tally xs []) ≡ count_if is_dead_letter xs
unfolding sum_if
dead_letters-tally xs =
    omega (arith, dead_letters-sum_if (tally xs []), sum_if-tally is_dead_letter xs [])

distinct-tally : (xs : List String) → length (tally xs []) ≡ count_new [] xs
distinct-tally xs = omega (arith, length-tally xs [] [] (λ z. refl))

-- The report counts each observed subject once: all of them, the different ones, the dead letters, and
-- those of each severity, with a zero for a severity of which there was none.
pub summarize_kpis-plain : (xs : List String) → summarize_kpis xs ≡ plain_kpis xs
unfolding summarize_kpis
summarize_kpis-plain xs i =
    kpi_map (total-tally xs i) (distinct-tally xs i) (dead_letters-tally xs i)
      (bucket_fields-plain xs severities i)
