-- ===== src/Tools/Shipping/Create.antt =====
-- app/tools/shipping_tools.py: an order is created, or changed where its id is in use.
use ekaette.Prelude.Int.{ℤ, pos, negsuc}
use ekaette.Dict.{lookup, insert}
use ekaette.Prelude.{
  ℕ, String, Bool, true, false, ◌||◌, Option, none, some, str_eq, if◌then◌else◌, strip,
}
use ekaette.Tools.Shipping.Records.{
  Order, Tracking, tenant_company_from_context, validated_order_id, base_tracking_payload,
  provider_or, base_review_followup_payload, given_key, normalize_order_id, given, or_text,
  tracking_status_or_default,
}
use ekaette.Tools.Shipping.Store.{
  Context, Place, Shipping, read_order_record, orders_collection, write_order_record,
}

-- The arguments of `create_order_record`; the UUID is that of a new id.
pub record CreateArgs : Type 0 where
  pub customer_name : String
  pub customer_phone : Option String
  pub items_summary : Option String
  pub amount_kobo : Option ℤ
  pub payment_reference : Option String
  pub sender_city : Option String
  pub receiver_city : Option String
  pub delivery_address : Option String
  pub shipping_provider : String
  pub provider_tracking_id : Option String
  pub provider_shipment_id : Option String
  pub order_id : Option String
  pub tenant_id : Option String
  pub company_id : Option String
  pub uuid_hex : String

-- The codes of the errors.
pub data Code : Type 0 where
  order_invalid : Code
  order_scope_unavailable : Code
  order_not_found : Code
  order_review_contact_missing : Code
  order_review_notification_failed : Code

pub data Created : Type 0 where
  refused : Code → Created
  created : String → Order → Created

-- `_coerce_positive_int`, of an integer
abbrev coerce_positive_int : ℤ → ℕ
coerce_positive_int (pos n) = n
coerce_positive_int (negsuc n) = 0

abbrev amount_given : Option ℤ → ℕ → ℕ
amount_given none before = before
amount_given (some amount) before = coerce_positive_int amount

abbrev is_absent : Option String → Bool
is_absent none = true
is_absent (some s) = false

-- `order_id is not None and _validated_order_id(order_id) is None`
abbrev pub is_bad_id : Option String → Bool
is_bad_id none = false
is_bad_id (some id) = is_absent (validated_order_id (some id))

module _ (lower : String → String) where
  -- `record = {}`, with what the branches below put into its fields
  abbrev blank_order : Context → CreateArgs → Order
  blank_order c args = record {
    order_id = "";
    tenant_id = "";
    company_id = "";
    customer = record { name = ""; phone = none };
    items_summary = "";
    amount_kobo = 0;
    payment_reference = "";
    delivery = record { sender_city = none; receiver_city = none; address = none };
    tracking = base_tracking_payload lower args.shipping_provider c.now;
    review_followup = base_review_followup_payload;
    status = "";
    created_at = "";
    updated_at = "";
  }

  abbrev created_tracking : Context → CreateArgs → Tracking → Tracking
  created_tracking c args before = record before {
    provider = provider_or lower args.shipping_provider before.provider;
    tracking_id = given args.provider_tracking_id before.tracking_id;
    shipment_id = given args.provider_shipment_id before.shipment_id;
    status = tracking_status_or_default lower (or_text (strip before.status) "pending");
    updated_at = c.now;
  }

  -- The new record, from the one before.
  abbrev pub updated_order : Context → CreateArgs → String → Order → Order
  updated_order c args id before =
      let scope = tenant_company_from_context c.state args.tenant_id args.company_id in
      record before {
        order_id = id;
        tenant_id = scope.0;
        company_id = scope.1;
        customer = record {
          name = strip args.customer_name;
          phone = given_key args.customer_phone before.customer.phone;
        };
        items_summary = given args.items_summary before.items_summary;
        amount_kobo = amount_given args.amount_kobo before.amount_kobo;
        payment_reference = given args.payment_reference before.payment_reference;
        delivery = record {
          sender_city = given_key args.sender_city before.delivery.sender_city;
          receiver_city = given_key args.receiver_city before.delivery.receiver_city;
          address = given_key args.delivery_address before.delivery.address;
        };
        tracking = created_tracking c args before.tracking;
        status = or_text (strip before.status) "order_received";
        created_at = or_text (strip before.created_at) c.now;
        updated_at = c.now;
      }

  -- `_deepcopy(existing) if isinstance(existing, dict) else {}`
  abbrev pub existing_or_blank : Context → CreateArgs → Option Order → Order
  existing_or_blank c args none = blank_order c args
  existing_or_blank c args (some o) = o

  abbrev pub create_at :
      Context → CreateArgs → String → Option Place → Shipping → Created × Shipping
  create_at c args id none s = (refused order_scope_unavailable, s)
  create_at c args id (some p) s =
      let o = updated_order c args id (existing_or_blank c args (read_order_record p id s)) in
      (created id o, write_order_record c p id o s)

  unfoldable pub create_order_record : Context → CreateArgs → Shipping → Created × Shipping
  unfolding validated_order_id normalize_order_id orders_collection lookup insert
      tracking_status_or_default tenant_company_from_context
  create_order_record c args s =
      if str_eq (strip args.customer_name) "" || is_bad_id args.order_id
      then (refused order_invalid, s)
      else let id = normalize_order_id args.uuid_hex args.order_id in
        create_at c args id (orders_collection c id) s
