-- ===== src/Products/Lines.antt =====
-- The lines of an order for one product (app/services/orders.py, create_order).
use restaurant_reservation_s.Prelude.{
  ℕ, ◌≡◌, ◌≢◌, refl, ap, sym, ◌∙◌, true, false, List, [], ◌∷◌, some, any, All, arith, text_eq,
  text_eq→eq, text_eq_refl, Bool-cases, inl, inr, ◌⊎◌,
}
use restaurant_reservation_s.Names.{Text}
use restaurant_reservation_s.Models.Order.{OrderItem}
use restaurant_reservation_s.Orders.Catalogue.{Product, ObjectIds, OrderItemIn, find_product}
use restaurant_reservation_s.Orders.Placing.{names_product, found_products, price_of}
use restaurant_reservation_s.Orders.Receipt.{IsLineOf, AreLinesOf}

pub find_product-head : (d : Product) (ds : List Product) → find_product d.id (d ∷ ds) ≡ some d
unfolding find_product
find_product-head d ds = rw (text_eq_refl d.id) refl

-- A line for this product has this name and this price.
abbrev pub IsCharged : Text → Text → ℕ → OrderItem → Type 0
IsCharged product_id name price x =
    (x.product_id ≢ product_id) ⊎ ((x.product_name ≡ name) × (x.unit_price ≡ price))

module _ (ids : ObjectIds) (d : Product) (name : Text) (price : ℕ)
    (parsed : ids.parse d.id ≡ some d.id) (named : d.name ≡ some name)
    (priced : price_of d ≡ some price) where
  names_product-own : (i : OrderItemIn) → i.product_id ≡ d.id → names_product ids i d ≡ true
  unfolding names_product
  names_product-own i h =
      let p : ids.parse i.product_id ≡ some d.id = ap ids.parse h ∙ parsed in
      rw (p, names_product, text_eq_refl d.id) refl

  line-IsCharged :
      (found : List Product) (i : OrderItemIn) (x : OrderItem)
      → find_product d.id found ≡ some d
      → IsLineOf found i x
      → IsCharged d.id name price x
  line-IsCharged found i x there l = elim (Bool-cases (text_eq x.product_id d.id)) [
    | inl hit ↦
        let same : i.product_id ≡ d.id = sym l.product_id ∙ text_eq→eq x.product_id d.id hit in
        let h = rw same at l.in_catalogue in
        let n = l.name in
        let c : price_of l.product ≡ some x.unit_price = rw (l.has_price, l.price) refl in
        inr (ground (arith, h, n, there, named), ground (arith, h, c, there, priced))
    | inr miss ↦ inl (λ same. cc (text_eq_refl d.id, rw same at miss))
  ]

  found-AllCharged :
      (found : List Product) (is : List OrderItemIn) (xs : List OrderItem)
      → find_product d.id found ≡ some d
      → AreLinesOf found is xs
      → All (IsCharged d.id name price) xs
  found-AllCharged found [] [] there h = tt
  found-AllCharged found [] (x ∷ xs) there h = absurd h
  found-AllCharged found (i ∷ is) [] there h = absurd h
  found-AllCharged found (i ∷ is) (x ∷ xs) there h =
      (line-IsCharged found i x there h.0, found-AllCharged found is xs there h.1)

  -- Nobody has ordered it.
  missing-AllCharged :
      (found : List Product) (is : List OrderItemIn) (xs : List OrderItem)
      → any (λ i. names_product ids i d) is ≡ false
      → AreLinesOf found is xs
      → All (IsCharged d.id name price) xs
  missing-AllCharged found [] [] none_named h = tt
  missing-AllCharged found [] (x ∷ xs) none_named h = absurd h
  missing-AllCharged found (i ∷ is) [] none_named h = absurd h
  missing-AllCharged found (i ∷ is) (x ∷ xs) none_named h = (
    inl (λ same. let own = names_product-own i (sym h.0.product_id ∙ same) in cc (own, i_unnamed)),
    missing-AllCharged found is xs (ground (arith, none_named)) h.1,
  )
    where
      i_unnamed : names_product ids i d ≡ false
      i_unnamed = ground (arith, none_named)

  pub lines-AllCharged :
      (ds : List Product) (items : List OrderItemIn) (xs : List OrderItem)
      → AreLinesOf (found_products ids items (d ∷ ds)) items xs
      → All (IsCharged d.id name price) xs
  unfolding found_products
  lines-AllCharged ds items xs h = elim (Bool-cases (any (λ i. names_product ids i d) items)) [
    | inl hit ↦
        found-AllCharged (d ∷ found_products ids items ds) items xs
          (find_product-head d (found_products ids items ds)) (rw hit at h)
    | inr miss ↦ missing-AllCharged (found_products ids items (d ∷ ds)) items xs miss h
  ]
