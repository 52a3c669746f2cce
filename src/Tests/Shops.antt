-- ===== src/Tests/Shops.antt =====
-- tasks/task_2/internal over a database in memory, with amounts in cents: the laws of the interface can
-- be met.
use broker_message.Base.{
  ℕ, ◌+◌, ◌*◌, ◌≡◌, ◌⊎◌, inl, inr, refl, sym, ap, subst, ◌∙◌, arith, Bool, true, false, Option,
  some, none, List, [], ◌∷◌, ◌++◌, map, ◌==◌, if◌then◌else◌, Option-cases,
}
use broker_message.Orders.{
  ℤ, pos, negsuc, PlaceOrderResult, Item, Floats, PriceReply, price, no_rows, Postgres,
}
use broker_message.Orders.Store
use broker_message.Orders.Store.{Failure, commit_failed}
use broker_message.Orders.Handlers
use broker_message.Orders.Handlers.{
  PlaceOrderReq, error_reply, order_created, of_store, status_bad_request,
}
use broker_message.Orders.Placing.{IsPlaced, place_order-answers}

sum_of : List ℕ → ℕ
sum_of [] = 0
sum_of (x ∷ xs) = x + sum_of xs

instance abbrev cents : Floats ℕ
cents = record { is_negative = λ x. false; times = λ p q. p * q; numeric = λ x. x; sum = sum_of }

int_eq : ℤ → ℤ → Bool
int_eq (pos a) (pos b) = a == b
int_eq (pos a) (negsuc b) = false
int_eq (negsuc a) (pos b) = false
int_eq (negsuc a) (negsuc b) = a == b

int_eq_refl : (a : ℤ) → int_eq a a ≡ true
unfolding int_eq
int_eq_refl (pos a) = ground arith
int_eq_refl (negsuc a) = ground arith

abbrev update : {A : Type 0} → ℤ → A → (ℤ → A) → ℤ → A
update k v m j = if int_eq k j then v else m j

-- The tables, and the next id.
record Tables : Type 0 where
  next : ℕ
  orders : ℤ → Option (ℤ × ℕ)
  items : ℤ → List (Item ℕ)
  prices : ℤ → Option ℕ

insert_order : Tables → ℤ → Option (Tables × ℤ)
insert_order t customer = some (
  record t {
    next = t.next + 1;
    orders = update (pos t.next) (some (customer, 0)) t.orders;
    items = update (pos t.next) [] t.items;
  },
  pos t.next,
)

select_price : Tables → ℤ → PriceReply Tables ℕ
select_price t p = elim (t.prices p) [ none ↦ no_rows | some x ↦ price t x ]

insert_item : Tables → ℤ → Item ℕ → Option Tables
insert_item t id i = some (record t { items = update id (t.items id ++ (i ∷ [])) t.items })

subtotals : Tables → ℤ → List ℕ
subtotals t id = map (λ (i : Item ℕ). i.subtotal) (t.items id)

with_total : ℕ → Option (ℤ × ℕ) → Option (ℤ × ℕ)
with_total x none = none
with_total x (some (customer, y)) = some (customer, x)

update_total : Tables → ℤ → Option (Tables × ℕ)
unfolding subtotals
update_total t id =
    let x = sum_of (subtotals t id) in
    some (record t { orders = update id (with_total x (t.orders id)) t.orders }, x)

some_inj : {A : Type 0} (a c : A) → some a ≡ some c → a ≡ c
some_inj a c h = cc

order_row :
    (t t' : Tables) (customer id : ℤ)
    → insert_order t customer ≡ some (t', id)
    → (z : ℕ) × (t'.orders id ≡ some (customer, z))
unfolding insert_order
order_row t t' customer id h =
    subst (λ (y : Tables × ℤ). (z : ℕ) × (y.0.orders y.1 ≡ some (customer, z))) (some_inj _ _ h)
      (0, rw (int_eq_refl (pos t.next)) refl)

order_items :
    (t t' : Tables) (customer id : ℤ) → insert_order t customer ≡ some (t', id) → t'.items id ≡ []
unfolding insert_order
order_items t t' customer id h =
    subst (λ (y : Tables × ℤ). y.0.items y.1 ≡ []) (some_inj _ _ h)
      (rw (int_eq_refl (pos t.next)) refl)

price_found :
    (t t' : Tables) (p : ℤ) (x : ℕ)
    → select_price t p ≡ price t' x
    → (t.prices p ≡ some x) × (t ≡ t')
unfolding select_price
price_found t t' p x h = elim (Option-cases (t.prices p)) [
  | inl e ↦ cc (rw (e, select_price) at h)
  | inr (y, e) ↦
      let same : Path (PriceReply Tables ℕ) (price t y) (price t' x) =
        sym (rw (e, select_price) refl) ∙ h in
      (e ∙ cc, cc)
]

item_done :
    (t t' : Tables) (id : ℤ) (i : Item ℕ)
    → insert_item t id i ≡ some t'
    → (t'.orders id ≡ t.orders id)
      × (t'.items id ≡ t.items id ++ (i ∷ []))
      × ((q : ℤ) (y : ℕ) → t.prices q ≡ some y → t'.prices q ≡ some y)
unfolding insert_item
item_done t t' id i h =
    subst
      (λ (s : Tables).
        (s.orders id ≡ t.orders id)
        × (s.items id ≡ t.items id ++ (i ∷ []))
        × ((q : ℤ) (y : ℕ) → t.prices q ≡ some y → s.prices q ≡ some y))
      (some_inj _ _ h) (refl, rw (int_eq_refl id) refl, λ q y k. k)

total_done :
    (t t' : Tables) (id : ℤ) (x : ℕ)
    → update_total t id ≡ some (t', x)
    → (x ≡ sum_of (map (λ (i : Item ℕ). i.subtotal) (t.items id)))
      × ((customer : ℤ) (y : ℕ)
          → t.orders id ≡ some (customer, y)
          → t'.orders id ≡ some (customer, x))
      × (t'.items id ≡ t.items id)
      × ((q : ℤ) (y : ℕ) → t.prices q ≡ some y → t'.prices q ≡ some y)
unfolding update_total subtotals with_total
total_done t t' id x h =
    subst
      (λ (s : Tables × ℕ).
        (s.1 ≡ sum_of (map (λ (i : Item ℕ). i.subtotal) (t.items id)))
        × ((customer : ℤ) (y : ℕ)
            → t.orders id ≡ some (customer, y)
            → s.0.orders id ≡ some (customer, s.1))
        × (s.0.items id ≡ t.items id)
        × ((q : ℤ) (y : ℕ) → t.prices q ≡ some y → s.0.prices q ≡ some y))
      (some_inj _ _ h) (refl, λ customer y k. rw (int_eq_refl id, k) refl, refl, λ q y k. k)

committed_row :
    (t d : Tables) (id : ℤ) (o : ℤ × ℕ)
    → Path (Tables × Bool) (t, true) (d, true)
    → t.orders id ≡ some o
    → (d.orders id ≡ some o) × (d.items id ≡ t.items id)
committed_row t d id o h k =
    let same : t ≡ d = ap (λ (x : Tables × Bool). x.0) h in
    subst (λ (s : Tables). (s.orders id ≡ some o) × (s.items id ≡ t.items id)) same (k, refl)

committed_price :
    (t d : Tables) (p : ℤ) (x : ℕ)
    → Path (Tables × Bool) (t, true) (d, true)
    → t.prices p ≡ some x
    → d.prices p ≡ some x
committed_price t d p x h k =
    subst (λ (s : Tables). s.prices p ≡ some x) (ap (λ (x : Tables × Bool). x.0) h) k

selected :
    (t t' : Tables) (p : ℤ) (x : ℕ)
    → select_price t p ≡ price t' x
    → ((id : ℤ) → t'.orders id ≡ t.orders id)
      × ((id : ℤ) → t'.items id ≡ t.items id)
      × ((q : ℤ) (y : ℕ) → t.prices q ≡ some y → t'.prices q ≡ some y)
selected t t' p x h =
    subst
      (λ (s : Tables).
        ((id : ℤ) → s.orders id ≡ t.orders id)
        × ((id : ℤ) → s.items id ≡ t.items id)
        × ((q : ℤ) (y : ℕ) → t.prices q ≡ some y → s.prices q ≡ some y))
      (price_found t t' p x h).1 (λ id. refl, λ id. refl, λ q y k. k)

held : (t t' : Tables) (p : ℤ) (x : ℕ) → select_price t p ≡ price t' x → t'.prices p ≡ some x
held t t' p x h =
    let (found, same) = price_found t t' p x h in
    subst (λ (s : Tables). s.prices p ≡ some x) same found

abbrev shop : Postgres Tables Tables ℕ
shop = record {
  order_of = λ d. d.orders;
  items_of = λ d. d.items;
  price_of = λ d. d.prices;
  own_order = λ t. t.orders;
  own_items = λ t. t.items;
  locks = λ t p x. t.prices p ≡ some x;
  begin = λ d. some d;
  insert_order = insert_order;
  select_price = select_price;
  insert_item = insert_item;
  update_total = update_total;
  update_email = λ t id email. some (t, 0);
  insert_product = λ t p. some (t, record { product_id = pos 1; name = p.name; price = p.price });
  commit = λ t. (t, true);
  select_customers = λ d. some [];
  select_products = λ d. some [];
  insert_order_row = order_row;
  insert_order_items = order_items;
  select_locks = held;
  select_keeps = selected;
  insert_item_done = item_done;
  update_total_done = total_done;
  commit_order = committed_row;
  commit_prices = committed_price;
}

-- A product for 15 and one for 40.
abbrev stock : Tables
stock = record {
  next = 7;
  orders = λ id. none;
  items = λ id. [];
  prices = update (pos 1) (some 15) (update (pos 2) (some 40) (λ p. none));
}

abbrev cart : PlaceOrderReq
cart = record {
  customer_id = pos 3;
  items =
      record { product_id = pos 2; quantity = pos 1 }
      ∷ record { product_id = pos 1; quantity = pos 2 }
      ∷ [];
}

cart_placed :
    (Handlers.place_order shop (some cart) stock).1
    ≡ order_created (record { order_id = pos 7; total_amount = 70; customer_id = pos 3 })
unfolding Handlers.place_order Store.place_order Store.prepare_order Store.add_lines insert_order
    select_price insert_item update_total sum_of int_eq with_total
cart_placed = refl

place_order-answers_example :
    ((r : PlaceOrderResult ℕ) × ((Handlers.place_order shop (some cart) stock).1 ≡ order_created r)
      × IsPlaced shop (Handlers.place_order shop (some cart) stock).0 cart.customer_id cart.items r)
    ⊎ ((e : Failure) × ((Handlers.place_order shop (some cart) stock).1
          ≡ error_reply status_bad_request (of_store e))
        × (((Handlers.place_order shop (some cart) stock).0 ≡ stock) ⊎ (e ≡ commit_failed)))
place_order-answers_example = place_order-answers shop stock cart
