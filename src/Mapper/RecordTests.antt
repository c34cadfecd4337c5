-- ===== src/Mapper/RecordTests.antt =====
-- Runs of the record mappings.
use cavi_erp.Prelude.{
  ◌≡◌, ◌≢◌, ◌↔◌, refl, String, false, true, none, List, [], ◌∷◌, ◌<>◌, ◌==◌, string_eq, eq_iff, sym,
  ◌∙◌, All, pair_eq,
}
use cavi_erp.Prelude.Int.{pos, negsuc, show_ℕ}
use cavi_erp.Dict.{get, put}
use cavi_erp.Json.{Value, Object, str, int, obj, arr, cons, nil, of_dict}
use cavi_erp.Json.Dumps.{sort_keys}
use cavi_erp.Error.{Error, ok, err}
use cavi_erp.Fixtures.{services}
use cavi_erp.Agent.Event.{Event, item, text}
use cavi_erp.Agent.Runtime.{Agent, fresh_runtime}
use cavi_erp.Mapper.Records.{
  apply, scan, carry, map_tables, required_gaps, undeclared_gaps, apply_lines, major_text,
  minor_to_major,
}
use cavi_erp.Mapper.Records.Tables
use cavi_erp.Mapper.Records.Tables.{adjustment, adjustment_lines}
use cavi_erp.Mapper.Records.Complete.{IsComplete, apply-IsComplete}
use cavi_erp.Mapper.Records.Targets.{Arrives}
use cavi_erp.Mapper.Records.Carried.{TableArrives, apply-Arrives}
use cavi_erp.Json.Casts.{has_text_keys}
use cavi_erp.Mapper.Erp.{Transformer, Job, read_job, register_netsuite_mappings}
use cavi_erp.Mapper.Erp.Outcome.{Answered, on_event-Answered}

cents : major_text (pos 1499) ≡ "14.99"
unfolding major_text show_ℕ
cents = refl

dimes : major_text (negsuc 1489) ≡ "-14.9"
unfolding major_text show_ℕ
dimes = refl

few_cents : major_text (pos 5) ≡ "0.05"
unfolding major_text show_ℕ
few_cents = refl

abbrev repr : Value → String
repr v = "…"

abbrev vitamin : Object
vitamin = ("sku", str "D3") ∷ ("name", str "Vitamin D") ∷ ("unit_price_minor", int (pos 1500)) ∷ []

abbrev mapped_vitamin : Object
mapped_vitamin =
    ("itemId", str "D3") ∷ ("displayName", str "Vitamin D") ∷ ("basePrice", str "15") ∷ []

maps_item : apply (Tables.item repr) vitamin ≡ ok mapped_vitamin
unfolding apply carry map_tables required_gaps undeclared_gaps sort_keys Tables.item minor_to_major
    get put show_ℕ
maps_item = refl

apply-IsComplete_example : (apply (Tables.item repr) vitamin ≡ ok mapped_vitamin) ↔ (
    ((gaps : List String) × (scan (Tables.item repr) vitamin ≡ ok (mapped_vitamin, gaps)))
    × IsComplete (Tables.item repr) vitamin)
apply-IsComplete_example = apply-IsComplete (Tables.item repr) vitamin mapped_vitamin

-- Every gap is named: the missing account, the field that is not declared, and the line without a sku.
blocks :
    apply adjustment (
      ("location", str "L")
      ∷ ("colour", str "red")
      ∷ ("lines", arr (cons (obj (of_dict (("quantity_delta", int (pos 2)) ∷ []))) nil))
      ∷ [])
    ≡ err (
        Error.transform_error (
          "mapping blocked for cavi.inventory_adjustment.v1: account is required; "
          <> "colour has no NetSuite target (undeclared); lines[0].sku is required"))
unfolding apply carry map_tables required_gaps undeclared_gaps sort_keys adjustment apply_lines get
    put show_ℕ
blocks = refl

abbrev count_sheet : Object
count_sheet =
    ("account", str "A")
    ∷ ("location", str "L")
    ∷ (
      "lines",
      arr (cons (obj (of_dict (("sku", str "D3") ∷ ("quantity_delta", int (pos 2)) ∷ []))) nil),
    )
    ∷ []

abbrev mapped_sheet : Object
mapped_sheet =
    ("account", str "A")
    ∷ ("adjLocation", str "L")
    ∷ (
      "inventory",
      arr (cons (obj (of_dict (("item", str "D3") ∷ ("adjustQtyBy", int (pos 2)) ∷ []))) nil),
    )
    ∷ []

maps_sheet : apply adjustment count_sheet ≡ ok mapped_sheet
unfolding apply carry map_tables required_gaps undeclared_gaps sort_keys adjustment apply_lines get
    put
maps_sheet = refl

differ : (a b : String) → (a == b) ≡ false → a ≢ b
differ a b unequal same = never ((sym unequal) ∙ (eq_iff a b).1 same)
  where
    never : false ≢ true
    never e = cc

abbrev Sheet : Type 0
Sheet =
    All (Arrives adjustment.converters count_sheet mapped_sheet) adjustment.fields
    × All (TableArrives count_sheet mapped_sheet) adjustment.lines

apply-Arrives_example : Sheet
unfolding adjustment adjustment_lines
apply-Arrives_example =
    apply-Arrives adjustment count_sheet mapped_sheet
      (
        (differ _ _ refl, (differ _ _ refl, (differ _ _ refl, tt))),
        ((differ _ _ refl, (differ _ _ refl, tt)), ((differ _ _ refl, tt), (tt, tt))),
      )
      (
        (
          (differ _ _ refl, (differ _ _ refl, (differ _ _ refl, tt))),
          ((differ _ _ refl, (differ _ _ refl, tt)), ((differ _ _ refl, tt), (tt, tt))),
        ),
        tt,
      )
      maps_sheet

abbrev transformer : Transformer
transformer = register_netsuite_mappings repr []

abbrev request : Object
request =
    ("tenant_id", str "t")
    ∷ ("source_erp", str "cavi")
    ∷ ("source_schema", str "cavi.item.v1")
    ∷ ("target_schema", str "netsuite.lotNumberedInventoryItem.v1")
    ∷ ("record", obj (of_dict vitamin))
    ∷ []

abbrev asked : Event
asked = record {
  subject = "mapper.erp.transform";
  schema_version = pos 1;
  source = "n8n";
  payload = request;
  id = "e1";
  correlation_id = none;
  tenant_id = none;
}

abbrev job : Job
job = record {
  tenant_id = str "t";
  source_erp = str "cavi";
  source_schema = "cavi.item.v1";
  target_schema = "netsuite.lotNumberedInventoryItem.v1";
  source = obj (of_dict vitamin);
}

abbrev mapper : Agent Transformer
mapper = record { own = transformer; runtime = fresh_runtime }

on_event-Answered_example : Answered services asked job mapper
unfolding read_job item text get has_text_keys
on_event-Answered_example = on_event-Answered services asked job mapper refl refl
