-- ===== src/Product/Routes/Order.antt =====
-- The order of `active_routes`, in product/src/cyrene_exchange_product/store.py, and so of the plan of
-- product/src/cyrene_exchange_product/routing.py.
use cyrene_exchange.Product.Routes.Listing.{order_by, insert_by, by_priority}
use mathlib.Core.List.{Perm}
use mathlib.Core.List.Perm
use cyrene_exchange.Prelude.{
  All-map, [], ◌∷◌, inl, inr, true, false, ◌≡◌, List, arith, Bool-cases, All,
}
use cyrene_exchange.Product.Resources.{RouteRow}

-- No row stands after one that the order puts behind it.
abbrev pub IsSorted : List RouteRow → Type 0
IsSorted [] = Unit
IsSorted (x ∷ xs) = All (λ y. by_priority y x ≡ false) xs × IsSorted xs

by_priority_trans :
    (a b c : RouteRow) → by_priority b a ≡ false → by_priority c b ≡ false → by_priority c a ≡ false
unfolding by_priority
by_priority_trans a b c h k = grind arith

by_priority_asym : (a b : RouteRow) → by_priority a b ≡ true → by_priority b a ≡ false
unfolding by_priority
by_priority_asym a b h = grind arith

insert_by-Perm : (x : RouteRow) (xs : List RouteRow) → Perm (insert_by by_priority x xs) (x ∷ xs)
unfolding insert_by
insert_by-Perm x [] = Perm.refl (x ∷ [])
insert_by-Perm x (y ∷ ys) = elim (Bool-cases (by_priority y x)) [
  | inl e ↦ rw e (Perm.trans (Perm.cons y (insert_by-Perm x ys)) (Perm.swap x y ys))
  | inr e ↦ rw e (Perm.refl (x ∷ y ∷ ys))
]

pub order_by-Perm : (xs : List RouteRow) → Perm (order_by by_priority xs) xs
unfolding order_by
order_by-Perm [] = Perm.refl []
order_by-Perm (x ∷ xs) =
    Perm.trans (insert_by-Perm x (order_by by_priority xs)) (Perm.cons x (order_by-Perm xs))

insert_by-All :
    (P : RouteRow → Type 0) (x : RouteRow) (xs : List RouteRow)
    → P x
    → All P xs
    → All P (insert_by by_priority x xs)
unfolding insert_by
insert_by-All P x [] h k = (h, tt)
insert_by-All P x (y ∷ ys) h k = elim (Bool-cases (by_priority y x)) [
  | inl e ↦ rw e (k.0, insert_by-All P x ys h k.1)
  | inr e ↦ rw e (h, k)
]

insert_by-IsSorted :
    (x : RouteRow) (xs : List RouteRow) → IsSorted xs → IsSorted (insert_by by_priority x xs)
unfolding insert_by
insert_by-IsSorted x [] h = (tt, tt)
insert_by-IsSorted x (y ∷ ys) h = elim (Bool-cases (by_priority y x)) [
  | inl e ↦ rw e (
    insert_by-All (λ z. by_priority z y ≡ false) x ys (by_priority_asym y x e) h.0,
    insert_by-IsSorted x ys h.1,
  )
  | inr e ↦ rw e ((e, All-map ys (λ z k. by_priority_trans x y z e k) h.0), h)
]

pub order_by-IsSorted : (xs : List RouteRow) → IsSorted (order_by by_priority xs)
unfolding order_by
order_by-IsSorted [] = tt
order_by-IsSorted (x ∷ xs) = insert_by-IsSorted x (order_by by_priority xs) (order_by-IsSorted xs)

pub order_by-All :
    (P : RouteRow → Type 0) (xs : List RouteRow) → All P xs → All P (order_by by_priority xs)
unfolding order_by
order_by-All P [] h = tt
order_by-All P (x ∷ xs) h = insert_by-All P x (order_by by_priority xs) h.0 (order_by-All P xs h.1)
