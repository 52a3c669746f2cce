-- ===== src/Orders/Placing.antt =====
-- tasks/task_2/internal: what an order that is answered by 201 has left in the database, and what a
-- request that is answered by an error has not.
use broker_message.Base.{
  ℕ, zero, suc, ◌<◌, ◌≡◌, ◌⊎◌, refl, sym, ap, subst, ◌∙◌, arith, Bool, true, Option, some, none,
  List, [], ◌∷◌, ◌++◌, map, append-nil, append_assoc, Result-cases, Bool-cases, inl, inr, Result,
  ok, err, >>=-eq-ok, refuse_if-eq-ok, ok-injective,
}
use broker_message.Orders.{
  ℤ, pos, negsuc, OrderLineIn, PlaceOrderResult, Item, Floats, PriceReply, price, no_rows, failed,
  Postgres,
}
use broker_message.Orders.Store.{
  Failure, or_fail, positive, priced, add_line, add_lines, prepare_order, committed, commit_failed,
  is_empty, empty_order, begin_failed, insert_order_failed, update_total_failed,
}
use broker_message.Orders.Store
use broker_message.Orders.Handlers
use broker_message.Orders.Handlers.{
  PlaceOrderReq, answered, error_reply, order_created, of_store, status_bad_request,
}

module _ {F : Type 0} ⦃f : Floats F⦄ where
  -- The rows of the lines of an order, one for each line and in their order: the quantity is above 0,
  -- and the subtotal is what the column keeps of the price times the quantity.
  pub IsPriced : (ℤ → F → Type 0) → List OrderLineIn → List (Item F) → Type 0
  IsPriced P [] [] = Unit {0}
  IsPriced P [] (i ∷ items) = ⊥
  IsPriced P (l ∷ lines) [] = ⊥
  IsPriced P (l ∷ lines) (i ∷ items) =
      (x : F) × (q : ℕ) × P l.product_id x
      × (l.quantity ≡ pos q)
      × (0 < q)
      × (i ≡ record { product_id = l.product_id; quantity = q; subtotal = f.numeric (f.times x q) })
      × IsPriced P lines items

  IsPriced-map :
      (P Q : ℤ → F → Type 0) (lines : List OrderLineIn) (items : List (Item F))
      → ((p : ℤ) (x : F) → P p x → Q p x)
      → IsPriced P lines items
      → IsPriced Q lines items
  unfolding IsPriced
  IsPriced-map P Q [] [] h a = tt
  IsPriced-map P Q [] (i ∷ items) h a = elim a [ ]
  IsPriced-map P Q (l ∷ lines) [] h a = elim a [ ]
  IsPriced-map P Q (l ∷ lines) (i ∷ items) h (x, q, p, e, n, r, rest) =
      (x, q, h l.product_id x p, e, n, r, IsPriced-map P Q lines items h rest)

or_fail-eq-ok : {A : Type 0} (e : Failure) (o : Option A) (a : A) → or_fail e o ≡ ok a → o ≡ some a
or_fail-eq-ok e none a h = cc
or_fail-eq-ok e (some b) a h = ap some (ok-injective b a h)

priced-eq-ok :
    {T F : Type 0} (p : ℤ) (r : PriceReply T F) (tx : T × F)
    → priced p r ≡ ok tx
    → r ≡ price tx.0 tx.1
unfolding priced
priced-eq-ok {T} {F} p (price t x) tx h =
    ap (λ (y : T × F). price y.0 y.1) (ok-injective (t, x) tx h)
priced-eq-ok p no_rows tx h = cc
priced-eq-ok p failed tx h = cc

positive-eq-ok : (q : ℤ) (n : ℕ) → positive q ≡ ok n → (q ≡ pos n) × (0 < n)
unfolding positive
positive-eq-ok (pos zero) n h = cc
positive-eq-ok (pos (suc k)) n h =
    let same : suc k ≡ n = ok-injective (suc k) n h in (ap pos same, omega arith)
positive-eq-ok (negsuc k) n h = cc

module _ {D T F : Type 0} ⦃f : Floats F⦄ (pg : Postgres D T F) where
  -- A transaction that has added the rows of some lines, and holds the products.
  record Extends (t t' : T) (id : ℤ) (lines : List OrderLineIn) (items : List (Item F))
      : Type 0 where
    order_kept : pg.own_order t' id ≡ pg.own_order t id
    items_added : pg.own_items t' id ≡ pg.own_items t id ++ items
    are_priced : IsPriced (pg.locks t') lines items
    still_locked : (p : ℤ) (x : F) → pg.locks t p x → pg.locks t' p x

  add_line-Extends :
      (t t' : T) (id : ℤ) (l : OrderLineIn)
      → add_line pg t id l ≡ ok t'
      → (i : Item F) × Extends t t' id (l ∷ []) (i ∷ [])
  unfolding add_line IsPriced
  add_line-Extends t t' id l h =
      let (q, positive_q, h₁) = >>=-eq-ok (positive l.quantity) _ h in
      let (is_q, above) = positive-eq-ok l.quantity q positive_q in
      let (tx, selected, h₂) =
        >>=-eq-ok (priced l.product_id (pg.select_price t l.product_id)) _ h₁ in
      let (t₁, x) = tx in
      let locked = priced-eq-ok l.product_id (pg.select_price t l.product_id) (t₁, x) selected in
      let row : Item F = record {
        product_id = l.product_id;
        quantity = q;
        subtotal = f.times x q;
      } in
      let inserted = or_fail-eq-ok _ (pg.insert_item t₁ id row) t' h₂ in
      let (same_order, same_items, kept) = pg.select_keeps t t₁ l.product_id x locked in
      let (order', items', kept') = pg.insert_item_done t₁ t' id row inserted in
      let item : Item F = record row { subtotal = f.numeric (f.times x q) } in
      (
        item,
        record {
          order_kept = order' ∙ same_order id;
          items_added = items' ∙ ap (λ (is : List (Item F)). is ++ (item ∷ [])) (same_items id);
          are_priced = (
            x,
            q,
            kept' l.product_id x (pg.select_locks t t₁ l.product_id x locked),
            is_q,
            above,
            refl,
            tt,
          );
          still_locked = λ p y k. kept' p y (kept p y k);
        },
      )

  add_lines-Extends :
      (t t' : T) (id : ℤ) (lines : List OrderLineIn)
      → add_lines pg t id lines ≡ ok t'
      → (items : List (Item F)) × Extends t t' id lines items
  unfolding add_lines IsPriced
  add_lines-Extends t t' id [] h =
      let same : t ≡ t' = ok-injective t t' h in
      (
        [],
        rw (← same) (record {
          order_kept = refl;
          items_added = sym (append-nil (pg.own_items t id));
          are_priced = tt;
          still_locked = λ p x k. k;
        }),
      )
  add_lines-Extends t t' id (l ∷ lines) h =
      let (t₁, added, more) = >>=-eq-ok (add_line pg t id l) _ h in
      let (i, first) = add_line-Extends t t₁ id l added in
      let (items, rest) = add_lines-Extends t₁ t' id lines more in
      let (x, q, locked, is_q, above, row, _) = first.are_priced in
      (
        i ∷ items,
        record {
          order_kept = rest.order_kept ∙ first.order_kept;
          items_added =
              rest.items_added
              ∙ ap (λ (is : List (Item F)). is ++ items) first.items_added
              ∙ append_assoc (pg.own_items t id) (i ∷ []) items;
          are_priced =
              (x, q, rest.still_locked l.product_id x locked, is_q, above, row, rest.are_priced);
          still_locked = λ p y k. rest.still_locked p y (first.still_locked p y k);
        },
      )

  -- An order that has been committed: a row for each line at the price that the product has, and their
  -- sum as the total of the order.
  pub record IsPlaced (d : D) (customer : ℤ) (lines : List OrderLineIn) (r : PlaceOrderResult F)
      : Type 0 where
    pub priced_items : IsPriced (λ p x. pg.price_of d p ≡ some x) lines (pg.items_of d r.order_id)
    pub order_row : pg.order_of d r.order_id ≡ some (customer, r.total_amount)
    pub is_total :
        r.total_amount ≡ f.sum (map (λ (i : Item F). i.subtotal) (pg.items_of d r.order_id))
    pub of_customer : r.customer_id ≡ customer

  -- A transaction that is ready to be committed, the order's id and its total.
  record IsReady (customer : ℤ) (lines : List OrderLineIn) (r : T × ℤ × F) : Type 0 where
    own_priced : IsPriced (pg.locks r.0) lines (pg.own_items r.0 r.1)
    own_row : pg.own_order r.0 r.1 ≡ some (customer, r.2)
    own_total : r.2 ≡ f.sum (map (λ (i : Item F). i.subtotal) (pg.own_items r.0 r.1))

  prepare_order-IsReady :
      (d : D) (customer : ℤ) (lines : List OrderLineIn) (r : T × ℤ × F)
      → prepare_order pg d customer lines ≡ ok r
      → IsReady customer lines r
  unfolding prepare_order
  prepare_order-IsReady d customer lines r h =
      let (_, h₁) = refuse_if-eq-ok (is_empty lines) empty_order _ h in
      let (t₀, begun, h₂) = >>=-eq-ok (or_fail begin_failed (pg.begin d)) _ h₁ in
      let ((t₁, id), inserted, h₃) =
        >>=-eq-ok (or_fail insert_order_failed (pg.insert_order t₀ customer)) _ h₂ in
      let (t₂, added, h₄) = >>=-eq-ok (add_lines pg t₁ id lines) _ h₃ in
      let ((t₃, total), updated, h₅) =
        >>=-eq-ok (or_fail update_total_failed (pg.update_total t₂ id)) _ h₄ in
      let new_order = or_fail-eq-ok _ (pg.insert_order t₀ customer) (t₁, id) inserted in
      let (zero_total, row) = pg.insert_order_row t₀ t₁ customer id new_order in
      let none_yet = pg.insert_order_items t₀ t₁ customer id new_order in
      let (items, e) = add_lines-Extends t₁ t₂ id lines added in
      let (is_sum, new_row, same_items, kept) =
        pg.update_total_done t₂ t₃ id total
          (or_fail-eq-ok _ (pg.update_total t₂ id) (t₃, total) updated) in
      let listed : pg.own_items t₃ id ≡ items =
        same_items ∙ e.items_added ∙ ap (λ (is : List (Item F)). is ++ items) none_yet in
      let ready : IsReady customer lines (t₃, id, total) = record {
        own_priced =
            subst (IsPriced (pg.locks t₃) lines) (sym listed)
              (IsPriced-map (pg.locks t₂) (pg.locks t₃) lines items kept e.are_priced);
        own_row = new_row customer zero_total (e.order_kept ∙ row);
        own_total =
            is_sum
            ∙ ap (λ (is : List (Item F)). f.sum (map (λ (i : Item F). i.subtotal) is))
                (sym same_items);
      } in
      subst (IsReady customer lines) (ok-injective (t₃, id, total) r h₅) ready

  committed_order :
      (d d' : D) (customer : ℤ) (lines : List OrderLineIn) (r : T × ℤ × F)
      → IsReady customer lines r
      → pg.commit r.0 ≡ (d', true)
      → IsPlaced d' customer lines
          (record { order_id = r.1; total_amount = r.2; customer_id = customer })
  committed_order d d' customer lines r ready done =
      let (row, items) = pg.commit_order r.0 d' r.1 (customer, r.2) done ready.own_row in
      record {
        priced_items = rw items (
            IsPriced-map (pg.locks r.0) (λ p x. pg.price_of d' p ≡ some x) lines
              (pg.own_items r.0 r.1) (λ p x k. pg.commit_prices r.0 d' p x done k)
              ready.own_priced);
        order_row = row;
        is_total = rw items ready.own_total;
        of_customer = refl;
      }

  -- How `PlaceOrder` comes out.
  abbrev Outcome : D → ℤ → List OrderLineIn → D × Result Failure (PlaceOrderResult F) → Type 0
  Outcome d customer lines (d', ok r) = IsPlaced d' customer lines r
  Outcome d customer lines (d', err e) = (d' ≡ d) ⊎ (e ≡ commit_failed)

  place_order-Outcome :
      (d : D) (customer : ℤ) (lines : List OrderLineIn)
      → Outcome d customer lines (Store.place_order pg d customer lines)
  unfolding Store.place_order
  place_order-Outcome d customer lines = elim (Result-cases (prepare_order pg d customer lines)) [
    | inr (e, stopped) ↦ rw (stopped, Store.place_order) (inl refl)
    | inl (r, ready) ↦ elim (Bool-cases (pg.commit r.0).1) [
      | inl done ↦
          let whole : pg.commit r.0 ≡ ((pg.commit r.0).0, true) =
            ap (λ (fine : Bool). ((pg.commit r.0).0, fine)) done in
          rw (ready, Store.place_order, done)
            (committed_order d (pg.commit r.0).0 customer lines r
              (prepare_order-IsReady d customer lines r ready) whole)
      | inr lost ↦ rw (ready, Store.place_order, lost) (inr refl)
    ]
  ]

  answered-Outcome :
      (d : D) (customer : ℤ) (lines : List OrderLineIn)
      (p : D × Result Failure (PlaceOrderResult F))
      → Outcome d customer lines p
      → ((r : PlaceOrderResult F) × ((answered pg order_created p).1 ≡ order_created r)
          × IsPlaced (answered pg order_created p).0 customer lines r)
        ⊎ ((e : Failure) × ((answered pg order_created p).1
              ≡ error_reply status_bad_request (of_store e))
            × (((answered pg order_created p).0 ≡ d) ⊎ (e ≡ commit_failed)))
  unfolding answered
  answered-Outcome d customer lines (d', ok r) o = inl (r, refl, o)
  answered-Outcome d customer lines (d', err e) o = inr (e, refl, o)

  -- A POST of an order is answered by 201 with what has been committed: a row for each line in its
  -- order, with a quantity above 0 and the price that the product has at the commit, and the order with
  -- the sum of the rows as its total. Else it is answered by 400 and the database is as it was, unless
  -- it was the commit that failed.
  pub place_order-answers :
      (d : D) (req : PlaceOrderReq)
      → ((r : PlaceOrderResult F) × ((Handlers.place_order pg (some req) d).1 ≡ order_created r)
          × IsPlaced (Handlers.place_order pg (some req) d).0 req.customer_id req.items r)
        ⊎ ((e : Failure) × ((Handlers.place_order pg (some req) d).1
              ≡ error_reply status_bad_request (of_store e))
            × (((Handlers.place_order pg (some req) d).0 ≡ d) ⊎ (e ≡ commit_failed)))
  unfolding Handlers.place_order
  place_order-answers d req =
      answered-Outcome d req.customer_id req.items _
        (place_order-Outcome d req.customer_id req.items)
