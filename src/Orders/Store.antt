-- ===== src/Orders/Store.antt =====
-- tasks/task_2/internal/service/store.go: the methods of `Store`. The deferred Rollback leaves the
-- database as it was.
use broker_message.Base.{
  ℕ, zero, suc, Bool, true, false, Option, some, none, List, [], ◌∷◌, ◌==◌, if◌then◌else◌, Bytes,
  Result, ok, err, ◌>>=◌, ◌>>◌, refuse_if,
}
use broker_message.Orders.{
  ℤ, pos, negsuc, OrderLineIn, PlaceOrderResult, NewProduct, ProductCreated, CustomerRow,
  ProductRow, Floats, PriceReply, price, no_rows, failed, Postgres,
}

pub data Failure : Type 0 where
  empty_order : Failure
  begin_failed : Failure
  insert_order_failed : Failure
  quantity_not_positive : Failure
  product_not_found : ℤ → Failure
  lock_product_failed : Failure
  insert_item_failed : Failure
  update_total_failed : Failure
  commit_failed : Failure
  update_email_failed : Failure
  customer_not_found : Failure
  negative_price : Failure
  insert_product_failed : Failure
  query_failed : Failure

-- `if err := …; err != nil { return …, <failure> }`
abbrev pub or_fail : {A : Type 0} → Failure → Option A → Result Failure A
or_fail e none = err e
or_fail e (some a) = ok a

-- `line.Quantity`, where it is above 0.
unfoldable pub positive : ℤ → Result Failure ℕ
positive (pos zero) = err quantity_not_positive
positive (pos (suc n)) = ok (suc n)
positive (negsuc n) = err quantity_not_positive

unfoldable pub priced : {T F : Type 0} → ℤ → PriceReply T F → Result Failure (T × F)
priced p (price t x) = ok (t, x)
priced p no_rows = err (product_not_found p)
priced p failed = err lock_product_failed

unfoldable pub is_empty : {A : Type 0} → List A → Bool
is_empty [] = true
is_empty (x ∷ xs) = false

order_result :
    {T F : Type 0} → ℤ → Result Failure (T × ℤ × F) → Result Failure (T × PlaceOrderResult F)
order_result customer_id (err e) = err e
order_result customer_id (ok (t, order_id, total)) =
    ok (t, record { order_id = order_id; total_amount = total; customer_id = customer_id })

module _ {D T F : Type 0} ⦃f : Floats F⦄ (pg : Postgres D T F) where
  -- The body of the loop in `PlaceOrder`.
  unfoldable pub add_line : T → ℤ → OrderLineIn → Result Failure T
  unfolding positive priced
  add_line t order_id line = do
    quantity ← positive line.quantity
    (t₁, x) ← priced line.product_id (pg.select_price t line.product_id)
    or_fail insert_item_failed (
        pg.insert_item t₁ order_id (record {
          product_id = line.product_id;
          quantity = quantity;
          subtotal = f.times x quantity;
        }))

  unfoldable pub add_lines : T → ℤ → List OrderLineIn → Result Failure T
  unfolding add_line
  add_lines t order_id [] = ok t
  add_lines t order_id (line ∷ lines) = do
    t₁ ← add_line t order_id line
    add_lines t₁ order_id lines

  -- `PlaceOrder` up to the commit: the transaction, the order's id and its total.
  unfoldable pub prepare_order : D → ℤ → List OrderLineIn → Result Failure (T × ℤ × F)
  unfolding is_empty
  prepare_order d customer_id lines = do
    refuse_if (is_empty lines) empty_order
    t ← or_fail begin_failed (pg.begin d)
    (t₁, order_id) ← or_fail insert_order_failed (pg.insert_order t customer_id)
    t₂ ← add_lines t₁ order_id lines
    (t₃, total) ← or_fail update_total_failed (pg.update_total t₂ order_id)
    ok (t₃, order_id, total)

  -- `tx.Commit(ctx)`, or the rollback of a transaction that has not come that far.
  unfoldable pub committed : {A : Type 0} → D → Result Failure (T × A) → D × Result Failure A
  committed d (err e) = (d, err e)
  committed d (ok (t, a)) =
      let (d', done) = pg.commit t in (d', if done then ok a else err commit_failed)

  unfoldable pub place_order : D → ℤ → List OrderLineIn → D × Result Failure (PlaceOrderResult F)
  unfolding committed order_result
  place_order d customer_id lines =
      committed d (order_result customer_id (prepare_order d customer_id lines))

  unfoldable pub update_customer_email : D → ℤ → Bytes → D × Result Failure (Unit {0})
  unfolding committed
  update_customer_email d customer_id email = committed d (do
    t ← or_fail begin_failed (pg.begin d)
    (t₁, rows) ← or_fail update_email_failed (pg.update_email t customer_id email)
    refuse_if (rows == 0) customer_not_found
    ok (t₁, tt))

  unfoldable pub create_product : D → NewProduct F → D × Result Failure (ProductCreated F)
  unfolding committed
  create_product d p = committed d (do
    refuse_if (f.is_negative p.price) negative_price
    t ← or_fail begin_failed (pg.begin d)
    or_fail insert_product_failed (pg.insert_product t p))

  abbrev pub query_customers : D → Result Failure (List CustomerRow)
  query_customers d = or_fail query_failed (pg.select_customers d)

  abbrev pub query_products : D → Result Failure (List (ProductRow F))
  query_products d = or_fail query_failed (pg.select_products d)
