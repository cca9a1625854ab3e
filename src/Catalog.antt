-- ===== src/Catalog.antt =====
-- internal/catalog/catalog.go: the product that the other parts exchange.
use agent_mart.Prelude.{Option}
use agent_mart.Prelude.Int.{ℤ}
use agent_mart.Prelude.Text.{Text}

pub record Product : Type 0 where
  pub id : Text
  pub name : Text
  pub category : Text
  pub price_paise : ℤ
  pub stock : ℤ
  pub warranty_years : ℤ
  pub trust_score : ℤ
  pub combo_with : Option Text
  pub combo_discount_pct : ℤ
  pub cost_paise : ℤ
