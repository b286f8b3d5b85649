-- ===== src/Control/Model.antt =====
-- core/control/model.go. Money, sizes and counts are Go's int64; an instant is an integer.
use nft_soket.Base.{Bool, true, false, Option}
use nft_soket.Base.Int.{ℤ}
use nft_soket.Base.Text.{Text, codes}

abbrev pub Money : Type 0
Money = ℤ

abbrev pub Period : Type 0
Period = Text

abbrev pub period_monthly : Period
period_monthly = codes "monthly"

-- `Period.advance`: every period is a month. `add_month t` is t.AddDate(0, 1, 0).
unfoldable pub advance : (ℤ → ℤ) → Period → ℤ → ℤ
advance add_month p t = add_month t

pub record Plan : Type 0 where
  pub id : Text
  pub name : Text
  pub quota_bytes : ℤ
  pub price_cents : Money
  pub currency : Text
  pub period : Period

-- A status is any string; the code tells three of them apart.
pub data AccountStatus : Type 0 where
  active suspended closed : AccountStatus
  other : Text → AccountStatus

abbrev pub is_active : AccountStatus → Bool
is_active AccountStatus.active = true
is_active AccountStatus.suspended = false
is_active AccountStatus.closed = false
is_active (AccountStatus.other t) = false

abbrev pub is_suspended : AccountStatus → Bool
is_suspended AccountStatus.active = false
is_suspended AccountStatus.suspended = true
is_suspended AccountStatus.closed = false
is_suspended (AccountStatus.other t) = false

abbrev pub is_closed : AccountStatus → Bool
is_closed AccountStatus.active = false
is_closed AccountStatus.suspended = false
is_closed AccountStatus.closed = true
is_closed (AccountStatus.other t) = false

pub record Account : Type 0 where
  pub id : Text
  pub name : Text
  pub email : Text
  pub plan_id : Text
  pub status : AccountStatus
  pub token_hash : Text
  pub created_at : ℤ
  pub period_start : ℤ
  pub period_end : ℤ

pub record Usage : Type 0 where
  pub account_id : Text
  pub bytes_used : ℤ
  pub object_count : ℤ
  pub updated_at : ℤ

pub data InvoiceStatus : Type 0 where
  unpaid paid void : InvoiceStatus
  other : Text → InvoiceStatus

-- inv.Status == InvoiceOpen; the constructor is `unpaid`, since `open` is a word of the language.
abbrev pub is_open : InvoiceStatus → Bool
is_open InvoiceStatus.unpaid = true
is_open InvoiceStatus.paid = false
is_open InvoiceStatus.void = false
is_open (InvoiceStatus.other s) = false

pub record Invoice : Type 0 where
  pub id : Text
  pub account_id : Text
  pub period_start : ℤ
  pub period_end : ℤ
  pub amount_cents : Money
  pub currency : Text
  pub status : InvoiceStatus
  pub created_at : ℤ
  pub paid_at : Option ℤ
  pub checkout_provider : Text
  pub checkout_ref : Text

pub record Payment : Type 0 where
  pub id : Text
  pub account_id : Text
  pub invoice_id : Text
  pub amount_cents : Money
  pub method : Text
  pub created_at : ℤ

-- The domain errors, and the two kinds that come from outside: the state file cannot be written, and
-- a payment provider refuses.
pub data Error : Type 0 where
  not_found quota_exceeded not_active conflict invalid : Error
  storage provider : Error

pub record AccountStatusView : Type 0 where
  pub account_id : Text
  pub name : Text
  pub status : AccountStatus
  pub plan_id : Text
  pub plan_name : Text
  pub quota_bytes : ℤ
  pub bytes_used : ℤ
  pub remaining_bytes : ℤ
  pub object_count : ℤ
  pub currency : Text
  pub outstanding_cts : Money
  pub period_end : ℤ
