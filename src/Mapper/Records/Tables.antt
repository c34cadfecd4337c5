-- ===== src/Mapper/Records/Tables.antt =====
-- The three reference mappings of agents/mapper/netsuite_records.py.
use cavi_erp.Prelude.{String, [], ◌∷◌, string_eq}
use cavi_erp.Json.{Value}
use cavi_erp.Dict.{Dict}
use cavi_erp.Mapper.Records.{LineMapping, RecordMapping, minor_to_major}

unfoldable pub adjustment_lines : LineMapping
adjustment_lines = record {
  target = "inventory";
  fields =
      ("sku", "item")
      ∷ ("quantity_delta", "adjustQtyBy")
      ∷ ("lot_number", "receiptInventoryNumber")
      ∷ ("expiry_date", "expirationDate")
      ∷ [];
  required = "sku" ∷ "quantity_delta" ∷ [];
  converters = [];
}

unfoldable pub transfer_lines : LineMapping
transfer_lines = record {
  target = "item";
  fields = ("sku", "item") ∷ ("quantity", "quantity") ∷ ("lot_number", "issueInventoryNumber") ∷ [];
  required = "sku" ∷ "quantity" ∷ [];
  converters = [];
}

unfoldable pub item : (Value → String) → RecordMapping
item repr = record {
  source_schema = "cavi.item.v1";
  target_schema = "netsuite.lotNumberedInventoryItem.v1";
  target_module = "lotNumberedInventoryItem";
  fields =
      ("sku", "itemId")
      ∷ ("name", "displayName")
      ∷ ("upc", "upcCode")
      ∷ ("shelf_life_days", "shelfLife")
      ∷ ("unit_price_minor", "basePrice")
      ∷ [];
  required = "sku" ∷ "name" ∷ [];
  unmapped = "item_id" ∷ "notes" ∷ [];
  converters = ("unit_price_minor", minor_to_major repr) ∷ [];
  lines = [];
}

unfoldable pub adjustment : RecordMapping
unfolding adjustment_lines
adjustment = record {
  source_schema = "cavi.inventory_adjustment.v1";
  target_schema = "netsuite.inventoryAdjustment.v1";
  target_module = "inventoryAdjustment";
  fields = ("account", "account") ∷ ("location", "adjLocation") ∷ ("memo", "memo") ∷ [];
  required = "account" ∷ "location" ∷ "lines" ∷ [];
  unmapped = "adjustment_id" ∷ "counted_by" ∷ [];
  converters = [];
  lines = ("lines", adjustment_lines) ∷ [];
}

unfoldable pub transfer : RecordMapping
unfolding transfer_lines
transfer = record {
  source_schema = "cavi.transfer.v1";
  target_schema = "netsuite.transferOrder.v1";
  target_module = "transferOrder";
  fields =
      ("location_from", "location")
      ∷ ("location_to", "transferLocation")
      ∷ ("expected_ship_date", "shipDate")
      ∷ ("memo", "memo")
      ∷ [];
  required = "location_from" ∷ "location_to" ∷ "lines" ∷ [];
  unmapped = "transfer_id" ∷ [];
  converters = [];
  lines = ("lines", transfer_lines) ∷ [];
}

-- `NETSUITE_RECORD_MAPPINGS`
unfoldable pub netsuite_record_mappings : (Value → String) → Dict String RecordMapping
unfolding item adjustment transfer
netsuite_record_mappings repr =
    ("cavi.item.v1", item repr)
    ∷ ("cavi.inventory_adjustment.v1", adjustment)
    ∷ ("cavi.transfer.v1", transfer)
    ∷ []
