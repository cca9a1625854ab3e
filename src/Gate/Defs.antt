-- ===== src/Gate/Defs.antt =====
-- The definitions of internal/gate/gate.go.
use agent_mart.Prelude.{Bool, true, false, ◌&&◌, ◌||◌, not, ◌++◌, Option, none, some, if◌then◌else◌}
use agent_mart.Prelude.Int.{ℤ, pos, negsuc, ◌-ℤ◌, ltb_ℤ, leb_ℤ, eqb_ℤ}
use agent_mart.Prelude.Int64.{max_int64, ◌*64◌, ◌/64◌}
use agent_mart.Prelude.Text.{Text, bytes, is_empty}
use agent_mart.Prelude.Result.{Result, ok, err, Exec}

-- `time.Time` and `time.Duration`, in nanoseconds.
abbrev pub Time : Type 0
Time = ℤ

abbrev pub Duration : Type 0
Duration = ℤ

abbrev pub is_zero : Time → Bool
is_zero t = eqb_ℤ t (pos 0)

-- `Time.Sub` keeps a difference that a Duration cannot hold at the nearest end.
unfoldable pub time_sub : Time → Time → Duration
unfolding ◌-ℤ◌
time_sub t u =
    let d = t -ℤ u in
    if ltb_ℤ max_int64 d
    then max_int64
    else if ltb_ℤ d (negsuc 9223372036854775807)
    then negsuc 9223372036854775807
    else d

pub record Request : Type 0 where
  pub account_id : Text
  pub product_id : Text
  pub quantity : ℤ
  pub unit_price_paise : ℤ
  pub base_amount_paise : ℤ
  pub final_amount_paise : ℤ
  pub wallet_balance_paise : ℤ
  pub spend_limit_paise : ℤ
  pub human_approved : Bool
  pub stock : ℤ
  pub price_observed_at : Time
  pub now : Time

pub data Reason : Type 0 where
  missing_identity invalid_quantity invalid_amount amount_overflow amount_mismatch : Reason
  insufficient_stock human_approval_required insufficient_wallet_balance stale_price : Reason
  approved : Reason

abbrev pub code : Reason → Text
code missing_identity = bytes "missing_identity"
code invalid_quantity = bytes "invalid_quantity"
code invalid_amount = bytes "invalid_amount"
code amount_overflow = bytes "amount_overflow"
code amount_mismatch = bytes "amount_mismatch"
code insufficient_stock = bytes "insufficient_stock"
code human_approval_required = bytes "human_approval_required"
code insufficient_wallet_balance = bytes "insufficient_wallet_balance"
code stale_price = bytes "stale_price"
code approved = bytes "approved"

abbrev pub is_approved : Reason → Bool
is_approved approved = true
is_approved _ = false

pub record Decision : Type 0 where
  pub is_authorised : Bool
  pub reason : Reason
  pub request : Request

unfoldable pub rejection_reason : Request → Duration → Reason
rejection_reason r max_price_age =
    if is_empty r.account_id || is_empty r.product_id
    then missing_identity
    else if leb_ℤ r.quantity (pos 0)
    then invalid_quantity
    else if leb_ℤ r.unit_price_paise (pos 0)
        || (leb_ℤ r.base_amount_paise (pos 0) || leb_ℤ r.final_amount_paise (pos 0))
    then invalid_amount
    else if ltb_ℤ (max_int64 /64 r.quantity) r.unit_price_paise
    then amount_overflow
    else if not (eqb_ℤ r.base_amount_paise (r.unit_price_paise *64 r.quantity))
    then amount_mismatch
    else if ltb_ℤ r.stock r.quantity
    then insufficient_stock
    else if (leb_ℤ r.spend_limit_paise (pos 0) || ltb_ℤ r.spend_limit_paise r.final_amount_paise)
        && not r.human_approved
    then human_approval_required
    else if ltb_ℤ r.wallet_balance_paise r.final_amount_paise
    then insufficient_wallet_balance
    else if (is_zero r.now
          || (is_zero r.price_observed_at
              || (ltb_ℤ max_price_age (time_sub r.now r.price_observed_at)
                  || ltb_ℤ r.now r.price_observed_at)))
        && not r.human_approved
    then stale_price
    else approved

-- `gate.New`: the auditor is mandatory, and the age positive.
pub record Gate (A : Type 0) : Type 0 where
  pub auditor : A
  pub max_price_age : Duration

unfoldable pub new : {A : Type 0} → Option A → Duration → Result (Gate A)
new none max_price_age = err (bytes "gate auditor is required")
new (some auditor) max_price_age =
    if leb_ℤ max_price_age (pos 0)
    then err (bytes "maximum price age must be positive")
    else ok (record { auditor = auditor; max_price_age = max_price_age })

-- `Auditor`: `RecordGateDecision`, on the state `S` that its store keeps.
abbrev pub Auditor : Type 0 → Type 0
Auditor S = Decision → Exec S (Unit {0})

abbrev pub decide : Request → Duration → Decision
decide r age =
    let reason = rejection_reason r age in
    record { is_authorised = is_approved reason; reason = reason; request = r }

abbrev pub audited : Decision → Result (Unit {0}) → Result Decision
audited d (ok _) = ok d
audited d (err e) = err (bytes "audit gate decision: " ++ e)

-- `Evaluate`
unfoldable pub evaluate : {S : Type 0} → Gate (Auditor S) → Request → Exec S Decision
evaluate g r s =
    let d = decide r g.max_price_age in let (answer, s') = g.auditor d s in (audited d answer, s')
