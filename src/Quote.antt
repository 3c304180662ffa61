-- ===== src/Quote.antt =====
-- lib/stellar/sep38.ts and types/sep38.ts: the answers of a quote server, from the parsed JSON on,
-- and the requests. A thrown Sep38ClientError is its code; the endpoint and the message of an error
-- are left out. `Date.parse` is a parameter.
mod Fields
mod Request
mod Price
mod Sound
mod Answers
mod Firm
mod Tests
-- What `JSON.parse` gives, as far as it is looked at: of a number, whether it is an integer.
use stellar_core.Prelude.{Bool, Option, none, some, List, [], ◌∷◌, if◌then◌else◌}
use stellar_core.Prelude.Int.{ℤ}
use stellar_core.Prelude.Text.{Text, text_eq}

mutual
  pub data Json : Type 0 where
    null_value other_number : Json
    boolean : Bool → Json
    integer : ℤ → Json
    string : Text → Json
    array : Items → Json
    object : Members → Json

  pub data Items : Type 0 where
    no_items : Items
    item : Json → Items → Items

  pub data Members : Type 0 where
    no_members : Members
    member : Text → Json → Members → Members

unfoldable pub items_of : Items → List Json
items_of no_items = []
items_of (item value items) = value ∷ items_of items

-- `record[key]`, where `none` is `undefined`.
unfoldable pub property_of : Members → Text → Option Json
property_of no_members key = none
property_of (member k value members) key =
    let rest = property_of members key in if text_eq k key then some value else rest

pub record Sep38FeeDetail : Type 0 where
  pub name : Text
  pub description : Option Text
  pub amount : Text

pub record Sep38Fee : Type 0 where
  pub total : Text
  pub asset : Text
  pub details : List Sep38FeeDetail

pub record Sep38IndicativePrice : Type 0 where
  pub sell_asset : Text
  pub buy_asset : Text
  pub total_price : Text
  pub price : Text
  pub sell_amount : Text
  pub buy_amount : Text
  pub fee : Sep38Fee
  pub sell_delivery_method : Option Text
  pub buy_delivery_method : Option Text

pub record Sep38FirmQuote : Type 0 where
  pub id : Text
  pub expires_at : Text
  pub total_price : Text
  pub price : Text
  pub sell_asset : Text
  pub sell_amount : Text
  pub sell_delivery_method : Option Text
  pub buy_asset : Text
  pub buy_amount : Text
  pub buy_delivery_method : Option Text
  pub fee : Sep38Fee

-- `Sep38IndicativePriceRequest` and `Sep38FirmQuoteRequest`; only the latter has `expire_after`.
pub record Sep38QuoteRequest : Type 0 where
  pub sell_asset : Text
  pub buy_asset : Text
  pub sell_amount : Option Text
  pub buy_amount : Option Text
  pub context : Text
  pub expire_after : Option Text
  pub sell_delivery_method : Option Text
  pub buy_delivery_method : Option Text
  pub country_code : Option Text
