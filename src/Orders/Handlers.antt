-- ===== src/Orders/Handlers.antt =====
-- tasks/task_2/internal/handlers/handlers.go and the routes of tasks/task_2/cmd/api/main.go. A request
-- holds what fiber's `BodyParser` makes of its body, none for an error, and what `strconv.ParseInt`
-- makes of the id in its path.
use broker_message.Base.{
  ℕ, Option, some, none, List, [], if◌then◌else◌, Bytes, bytes_eq, Result, ok, err,
}
use broker_message.Orders.{
  ℤ, OrderLineIn, PlaceOrderResult, NewProduct, ProductCreated, CustomerRow, ProductRow, Floats,
  Postgres,
}
use broker_message.Orders.Store
use broker_message.Orders.Store.{Failure}

pub record PlaceOrderReq : Type 0 where
  pub customer_id : ℤ
  pub items : List OrderLineIn

pub record PatchEmailReq : Type 0 where
  pub email : Bytes

-- What is wrong with a request before the store is asked, or what the store answers.
pub data Complaint : Type 0 where
  bad_body : Complaint
  invalid_id : Complaint
  email_required : Complaint
  product_name_required : Complaint
  of_store : Failure → Complaint

pub data Reply (F : Type 0) : Type 0 where
  error_reply : ℕ → Complaint → Reply F
  order_created : PlaceOrderResult F → Reply F
  product_created : ProductCreated F → Reply F
  no_content : Reply F
  customer_list : List CustomerRow → Reply F
  product_list : List (ProductRow F) → Reply F

abbrev pub status_bad_request : ℕ
status_bad_request = 400

abbrev pub status_internal_server_error : ℕ
status_internal_server_error = 500

-- The answer to what the store returns, with the status of an error.
answer : {A F : Type 0} → ℕ → (A → Reply F) → Result Failure A → Reply F
answer status good (ok a) = good a
answer status good (err e) = error_reply status (of_store e)

module _ {D T F : Type 0} ⦃f : Floats F⦄ (pg : Postgres D T F) where
  unfoldable pub answered : {A : Type 0} → (A → Reply F) → D × Result Failure A → D × Reply F
  unfolding answer
  answered good (d, r) = (d, answer status_bad_request good r)

  unfoldable pub place_order : Option PlaceOrderReq → D → D × Reply F
  unfolding answered
  place_order none d = (d, error_reply status_bad_request bad_body)
  place_order (some req) d =
      answered order_created (Store.place_order pg d req.customer_id req.items)

  unfoldable pub update_customer_email : Option ℤ → Option PatchEmailReq → D → D × Reply F
  unfolding answered
  update_customer_email none body d = (d, error_reply status_bad_request invalid_id)
  update_customer_email (some id) none d = (d, error_reply status_bad_request bad_body)
  update_customer_email (some id) (some req) d =
      if bytes_eq req.email []
      then (d, error_reply status_bad_request email_required)
      else answered (λ u. no_content) (Store.update_customer_email pg d id req.email)

  unfoldable pub create_product : Option (NewProduct F) → D → D × Reply F
  unfolding answered
  create_product none d = (d, error_reply status_bad_request bad_body)
  create_product (some req) d =
      if bytes_eq req.name []
      then (d, error_reply status_bad_request product_name_required)
      else answered product_created (Store.create_product pg d req)

  unfoldable pub list_customers : D → Reply F
  unfolding answer
  list_customers d = answer status_internal_server_error customer_list (Store.query_customers pg d)

  unfoldable pub list_products : D → Reply F
  unfolding answer
  list_products d = answer status_internal_server_error product_list (Store.query_products pg d)

-- A request below /api/v1, by its route.
pub data Request (F : Type 0) : Type 0 where
  post_orders : Option PlaceOrderReq → Request F
  patch_email : Option ℤ → Option PatchEmailReq → Request F
  post_products : Option (NewProduct F) → Request F
  get_customers : Request F
  get_products : Request F

module _ {D T F : Type 0} ⦃f : Floats F⦄ (pg : Postgres D T F) where
  unfoldable pub serve : Request F → D → D × Reply F
  serve (post_orders body) d = place_order pg body d
  serve (patch_email id body) d = update_customer_email pg id body d
  serve (post_products body) d = create_product pg body d
  serve get_customers d = (d, list_customers pg d)
  serve get_products d = (d, list_products pg d)
