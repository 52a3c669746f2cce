-- ===== src/Orders.antt =====
-- tasks/task_2/internal: orders over PostgreSQL. This file has the types of service/store.go and the
-- interface of the database; Store has the methods of service/store.go, Handlers handlers/handlers.go.
pub mod Store
pub mod Handlers
pub mod Placing
use broker_message.Base.{ℕ, ◌≡◌, Bool, true, Option, some, none, List, [], ◌∷◌, ◌++◌, map, Bytes}

-- An `int32`. `negsuc n` is -(n + 1).
pub data ℤ : Type 0 where
  pos : ℕ → ℤ
  negsuc : ℕ → ℤ

pub record OrderLineIn : Type 0 where
  pub product_id : ℤ
  pub quantity : ℤ

pub record PlaceOrderResult (F : Type 0) : Type 0 where
  pub order_id : ℤ
  pub total_amount : F
  pub customer_id : ℤ

pub record NewProduct (F : Type 0) : Type 0 where
  pub name : Bytes
  pub price : F

pub record ProductCreated (F : Type 0) : Type 0 where
  pub product_id : ℤ
  pub name : Bytes
  pub price : F

pub record CustomerRow : Type 0 where
  pub customer_id : ℤ
  pub first_name : Bytes
  pub last_name : Bytes
  pub email : Bytes

pub record ProductRow (F : Type 0) : Type 0 where
  pub product_id : ℤ
  pub product_name : Bytes
  pub price : F

-- A row of order_items.
pub record Item (F : Type 0) : Type 0 where
  pub product_id : ℤ
  pub quantity : ℕ
  pub subtotal : F

-- The numbers with a fraction: float64, and NUMERIC(12, 2) by the float8 that it is read as.
-- `times p q` is `p * float64(q)`, `numeric` what a column keeps of a float64, and `sum` is
-- COALESCE(SUM(…), 0).
pub record Floats (F : Type 0) : Type 0 where
  pub is_negative : F → Bool
  pub times : F → ℕ → F
  pub numeric : F → F
  pub sum : List F → F

pub data PriceReply (T F : Type 0) : Type 0 where
  price : T → F → PriceReply T F
  no_rows : PriceReply T F
  failed : PriceReply T F

-- PostgreSQL, with the statements of service/store.go as its operations; `none` is an error of the
-- call. `D` is what has been committed, `T` a transaction that is open. A transaction sees the rows
-- that it has written itself, and a row that it has selected FOR UPDATE stays as it is until the
-- commit: `locks t p x` says that it holds product `p`, with price `x`. A COMMIT that fails may have
-- been done. What other transactions commit in the meantime is not part of `D` before and behind a
-- call.
pub record Postgres (D T F : Type 0) ⦃f : Floats F⦄ : Type 1 where
  pub order_of : D → ℤ → Option (ℤ × F)
  pub items_of : D → ℤ → List (Item F)
  pub price_of : D → ℤ → Option F
  pub own_order : T → ℤ → Option (ℤ × F)
  pub own_items : T → ℤ → List (Item F)
  pub locks : T → ℤ → F → Type 0
  pub begin : D → Option T
  pub insert_order : T → ℤ → Option (T × ℤ)
  pub select_price : T → ℤ → PriceReply T F
  pub insert_item : T → ℤ → Item F → Option T
  pub update_total : T → ℤ → Option (T × F)
  pub update_email : T → ℤ → Bytes → Option (T × ℕ)
  pub insert_product : T → NewProduct F → Option (T × ProductCreated F)
  pub commit : T → D × Bool
  pub select_customers : D → Option (List CustomerRow)
  pub select_products : D → Option (List (ProductRow F))
  pub insert_order_row :
      (t t' : T) (customer id : ℤ)
      → insert_order t customer ≡ some (t', id)
      → (zero : F) × (own_order t' id ≡ some (customer, zero))
  pub insert_order_items :
      (t t' : T) (customer id : ℤ) → insert_order t customer ≡ some (t', id) → own_items t' id ≡ []
  pub select_locks : (t t' : T) (p : ℤ) (x : F) → select_price t p ≡ price t' x → locks t' p x
  pub select_keeps :
      (t t' : T) (p : ℤ) (x : F)
      → select_price t p ≡ price t' x
      → ((id : ℤ) → own_order t' id ≡ own_order t id)
        × ((id : ℤ) → own_items t' id ≡ own_items t id)
        × ((q : ℤ) (y : F) → locks t q y → locks t' q y)
  pub insert_item_done :
      (t t' : T) (id : ℤ) (i : Item F)
      → insert_item t id i ≡ some t'
      → (own_order t' id ≡ own_order t id)
        × (own_items t' id ≡ own_items t id ++ (record i { subtotal = f.numeric i.subtotal } ∷ []))
        × ((q : ℤ) (y : F) → locks t q y → locks t' q y)
  pub update_total_done :
      (t t' : T) (id : ℤ) (x : F)
      → update_total t id ≡ some (t', x)
      → (x ≡ f.sum (map (λ (i : Item F). i.subtotal) (own_items t id)))
        × ((customer : ℤ) (y : F)
            → own_order t id ≡ some (customer, y)
            → own_order t' id ≡ some (customer, x))
        × (own_items t' id ≡ own_items t id)
        × ((q : ℤ) (y : F) → locks t q y → locks t' q y)
  pub commit_order :
      (t : T) (d : D) (id : ℤ) (o : ℤ × F)
      → commit t ≡ (d, true)
      → own_order t id ≡ some o
      → (order_of d id ≡ some o) × (items_of d id ≡ own_items t id)
  pub commit_prices :
      (t : T) (d : D) (p : ℤ) (x : F) → commit t ≡ (d, true) → locks t p x → price_of d p ≡ some x
