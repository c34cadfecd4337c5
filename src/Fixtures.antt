-- ===== src/Fixtures.antt =====
-- Concrete services for the tests: a digest with two values, identifiers and clock readings that
-- are numbered, and a registry in which every subject has a schema that every payload meets.
use Prim.Native.String
use cavi_erp.Prelude.{
  ◌≡◌, refl, String, none, some, ◌<>◌, ◌==◌, string_eq, if◌then◌else◌, Bool-cases, inl, inr,
}
use cavi_erp.Prelude.Int.{show_ℕ}
use cavi_erp.Json.{null}
use cavi_erp.Services.{Services}

abbrev pub digest_a : String
digest_a = "aaaaaaaaaaaaaaaaaaaaaaaaaaaaaaaaaaaaaaaaaaaaaaaaaaaaaaaaaaaaaaaa"

abbrev pub digest_b : String
digest_b = "bbbbbbbbbbbbbbbbbbbbbbbbbbbbbbbbbbbbbbbbbbbbbbbbbbbbbbbbbbbbbbbb"

abbrev pub digest : String → String
digest m = if m == "" then digest_a else digest_b

pub count-digest : (m : String) → String.count (digest m) ≡ 64
count-digest m = elim (Bool-cases (m == "")) [ inl e ↦ rw e refl | inr e ↦ rw e refl ]

abbrev pub services : Services
services = record {
  sha256 = digest;
  as_uuid = λ s. some s;
  schema_file = λ name. some null;
  violation = λ schema payload. none;
  fresh_uuid = λ n. "id-" <> show_ℕ n;
  now_iso = λ n. "time-" <> show_ℕ n;
  monotonic = λ n. n;
}
