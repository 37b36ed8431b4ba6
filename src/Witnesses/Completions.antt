-- ===== src/Witnesses/Completions.antt =====
-- Witnesses of the completion door, in the office of Data.
use serv_grid.Common.{none, some, true, [], ◌∷◌, codes, Text}
use serv_grid.Store.Rows.{upi}
use serv_grid.Jobs.Complete.{CompletionInput, JobStackChange, JobCompletionPart}

-- In the place of PostgreSQL's `lower`, on texts that are in lower case.
abbrev as_typed : Text → Text
as_typed t = t

abbrev unit_change : JobStackChange
unit_change = record {
  product_id = none;
  free_text_name = some (codes "Inverter");
  serial_number = codes "inv-101";
  quantity = none;
  installed_on = none;
  warranty_expires_on = none;
  notes = none;
}

abbrev part : JobCompletionPart
part = record {
  product_id = none;
  free_text_name = some (codes "Filter");
  quantity = 100;
  unit_cost = none;
  serial_number = none;
  from_customer_stock = none;
}

abbrev report : CompletionInput
report = record {
  completed_at = 1779999000000;
  work_summary = codes "Changed the filter";
  service_ids = 6 ∷ 6 ∷ [];
  cost = some 60000;
  discount_amount = none;
  discount_reason = none;
  collection_mode = some upi;
  payment_reference = none;
  customer_signed = some true;
  stack_changes = unit_change ∷ [];
  parts = part ∷ [];
  latitude = none;
  longitude = none;
}
