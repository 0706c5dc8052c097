-- ===== src/Sales/Types.antt =====
-- The types of packages/contracts/src/index.ts that the sales module uses, and the request types of
-- apps/api/src/modules/sales/dto. An amount counts the smallest units of money. An absent text is the
-- empty text, an absent number or choice `none`; the quantity and the price of a requested item are
-- numbers, as their types say.
use autonomous_enterprise.Shared.{String, Bool, Option, List}
use autonomous_enterprise.Shared.Int.{ℤ}

pub data SalesOrderStatus : Type 0 where
  draft pending_approval approved rejected cancelled fulfilled : SalesOrderStatus

pub data SalesChannel : Type 0 where
  marketplace direct_sales : SalesChannel

pub data LeadOutcome : Type 0 where
  pending won lost : LeadOutcome

pub record Customer : Type 0 where
  pub id : String
  pub name : String
  pub email : String
  pub phone : String
  pub address : String
  pub created_at : String
  pub updated_at : String

pub record SalesOrderItem : Type 0 where
  pub id : String
  pub product_id : String
  pub quantity : ℤ
  pub unit_price : ℤ
  pub discount : ℤ
  pub total_price : ℤ

pub record SalesOrder : Type 0 where
  pub id : String
  pub customer_id : String
  pub order_number : String
  pub items : List SalesOrderItem
  pub subtotal : ℤ
  pub discount_amount : ℤ
  pub total_amount : ℤ
  pub status : SalesOrderStatus
  pub channel : SalesChannel
  pub assigned_rep_id : String
  pub lead_outcome : Option LeadOutcome
  pub assigned_at : String
  pub closed_at : String
  pub lost_reason : String
  pub idempotency_key : String
  pub notes : String
  pub created_at : String
  pub updated_at : String

pub record SalesRep : Type 0 where
  pub id : String
  pub employee_id : String
  pub full_name : String
  pub email : String
  pub territory : String
  pub quota_monthly_usd : ℤ
  pub active : Bool
  pub created_at : String
  pub updated_at : String

pub record CreateCustomerDto : Type 0 where
  pub name : String
  pub email : String
  pub phone : String
  pub address : String

pub record CreateSalesOrderItemDto : Type 0 where
  pub product_id : String
  pub quantity : ℤ
  pub unit_price : ℤ
  pub discount : Option ℤ

pub record CreateSalesOrderDto : Type 0 where
  pub customer_id : String
  pub items : List CreateSalesOrderItemDto
  pub discount_amount : Option ℤ
  pub notes : String
  pub idempotency_key : String
  pub channel : Option SalesChannel
  pub assigned_rep_id : String

pub record CreateSalesRepDto : Type 0 where
  pub full_name : String
  pub email : String
  pub territory : String
  pub quota_monthly_usd : Option ℤ
  pub employee_id : String

pub record CloseLeadDto : Type 0 where
  pub outcome : String
  pub lost_reason : String
