-- ===== src/Witnesses/Prices.antt =====
-- Witnesses of the prices and of the amendment of a completion.
use serv_grid.Common.{◌+◌, ◌-◌, ◌*◌, ◌≤◌, ◌<◌, ◌≡◌, none, some, codes, arith}
use serv_grid.Store.Events.{web}
use serv_grid.Common.{parse_int_from}
use serv_grid.Sales.Pricing.{
  before_dot, after_dot, to_hundredths, discounted_unit_price, SaleItemInput, price_text,
}
use serv_grid.Sales.Rounding.{
  discounted_unit_price_lem, to_hundredths-price_text, ResolveOutcome,
  resolve_sale_item-ResolveOutcome,
}
use serv_grid.Jobs.Amend.{AmendInput}
use serv_grid.Jobs.Amend.Outcome.{AmendOutcome, amend_completion-AmendOutcome}
use serv_grid.Witnesses.Data.{noon, the_owner, closed_office, closed_office-IsSound}

to_hundredths-price_text_example : to_hundredths (price_text 10405) ≡ 10405
to_hundredths-price_text_example = to_hundredths-price_text 10405

discounted_unit_price_example :
    (10000 * to_hundredths (discounted_unit_price (codes "999.99") (codes "12.5"))
      ≤ to_hundredths (codes "999.99") * (10000 - to_hundredths (codes "12.5")) + 5000)
    × (to_hundredths (codes "999.99") * (10000 - to_hundredths (codes "12.5")) + 5000
        < 10000 * to_hundredths (discounted_unit_price (codes "999.99") (codes "12.5")) + 10000)
    × (to_hundredths (discounted_unit_price (codes "999.99") (codes "12.5"))
        ≤ to_hundredths (codes "999.99"))
discounted_unit_price_example = discounted_unit_price_lem (codes "999.99") (codes "12.5") pct_small
  where
    pct_small : to_hundredths (codes "12.5") ≤ 10000
    pct_small = unfold to_hundredths before_dot after_dot parse_int_from in omega arith

abbrev line : SaleItemInput
line = record {
  unit_price = some (codes "875");
  list_price = some (codes "999.99");
  discount_pct = some (codes "12.5");
}

resolve_sale_item_example : ResolveOutcome line
resolve_sale_item_example = resolve_sale_item-ResolveOutcome line

abbrev correction : AmendInput
correction = record {
  cost = some 45000;
  discount_amount = none;
  discount_reason = none;
  reason = codes "typed twice";
}

amend_completion_example : AmendOutcome noon the_owner 7 correction web closed_office
amend_completion_example =
    amend_completion-AmendOutcome noon the_owner 7 correction web closed_office
      closed_office-IsSound
