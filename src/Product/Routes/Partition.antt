-- ===== src/Product/Routes/Partition.antt =====
-- Which rows `active_routes` of product/src/cyrene_exchange_product/store.py reads, and in which order.
use cyrene_exchange.Prelude.{
  eq_refl, ap, arith, ◌∙◌, sym, ◌&&◌, ◌⊎◌, ◌++◌, not, str_eq, opt_eq, [], ◌∷◌, none, some, inl, inr,
  true, false, refl, ◌≡◌, ◌≢◌, ◌<◌, ◌≤◌, List, Option, Uuid, String, Bool, Bool-cases, All, select,
  All-map, ◌==◌,
}
use mathlib.Core.Bool.{false≢true}
use text.Mathlib.TextEquality.{eq_iff}
use mathlib.Core.List.{Perm, perm_middle}
use mathlib.Core.List.Perm
use cyrene_exchange.Product.Resources.{RouteRow, RouteState, is_active}
use cyrene_exchange.Product.Routes.Listing.{
  by_priority, order_by, scope_is_complete, active_rows, active_in,
}
use cyrene_exchange.Product.Routes.Order.{order_by-Perm, order_by-IsSorted, order_by-All, IsSorted}
use cyrene_exchange.Product.Routes.Plan.{select-All}
use cyrene_exchange.Product.Routes.Stored.{is_legacy}
use cyrene_exchange.Product.Tables.{Store}

-- A lower priority number first, and among equal ones the lower id
abbrev pub Before : RouteRow → RouteRow → Type 0
Before a b = (a.priority < b.priority) ⊎ ((a.priority ≡ b.priority) × (a.id ≤ b.id))

abbrev pub InOrder : List RouteRow → Type 0
InOrder [] = Unit
InOrder (x ∷ xs) = All (Before x) xs × InOrder xs

-- Without a scope, the rows without an organization; with an organization and a workspace that is not
-- empty, the rows of both; with only one of them, no row.
abbrev pub InScope : Option String → Option String → RouteRow → Type 0
InScope none none x = x.organization_id ≡ none
InScope none (some w) x = ⊥
InScope (some o) none x = ⊥
InScope (some o) (some w) x = (w ≢ "") × (x.organization_id ≡ some o) × (x.workspace_id ≡ some w)

abbrev pub IsRead : Uuid → Option String → Option String → RouteRow → Type 0
IsRead endpoint o w x = (x.endpoint_id ≡ endpoint) × (x.state ≡ RouteState.active) × InScope o w x

by_priority-Before : (x y : RouteRow) → by_priority y x ≡ false → Before x y
unfolding by_priority
by_priority-Before x y h = ground arith

IsSorted-InOrder : (xs : List RouteRow) → IsSorted xs → InOrder xs
IsSorted-InOrder [] h = tt
IsSorted-InOrder (x ∷ xs) h =
    (All-map xs (λ y k. by_priority-Before x y k) h.0, IsSorted-InOrder xs h.1)

opt_eq-eq : (a : Option String) (s : String) → opt_eq a (some s) ≡ true → a ≡ some s
opt_eq-eq none s h = absurd (ground arith)
opt_eq-eq (some t) s h = ap some ((eq_iff t s).0 h)

opt_eq_refl : (s : String) → opt_eq (some s) (some s) ≡ true
opt_eq_refl s = eq_refl s

is_active-eq : (s : RouteState) → is_active s ≡ true → s ≡ RouteState.active
is_active-eq s h = ground arith

select-partition :
    (p : RouteRow → Bool) (xs : List RouteRow) → Perm xs (select p xs ++ select (λ x. not (p x)) xs)
unfolding select
select-partition p [] = Perm.refl []
select-partition p (x ∷ xs) = elim (Bool-cases (p x)) [
  | inl e ↦ rw e (Perm.cons x (select-partition p xs))
  | inr e ↦ rw e (
      Perm.trans (Perm.cons x (select-partition p xs))
        (Perm.symm (perm_middle (select p xs) (select (λ y. not (p y)) xs))))
]

none_read : (P : RouteRow → Type 0) (xs : List RouteRow) → ((x : RouteRow) → P x) → All P xs
none_read P [] h = tt
none_read P (x ∷ xs) h = (h x, none_read P xs h)

legacy-eq : (x : RouteRow) → is_legacy x ≡ true → x.organization_id ≡ none
legacy-eq x h = ground arith

active_in-IsRead :
    (endpoint : Uuid) (o w : Option String) (x : RouteRow)
    → scope_is_complete o w ≡ true
    → active_in endpoint o w x ≡ true
    → IsRead endpoint o w x
unfolding active_in scope_is_complete
active_in-IsRead endpoint none none x k h =
    (ground arith, is_active-eq x.state (ground arith), legacy-eq x (ground arith))
active_in-IsRead endpoint none (some w) x k h = absurd (ground arith)
active_in-IsRead endpoint (some o) none x k h = absurd (ground arith)
active_in-IsRead endpoint (some o) (some w) x k h = (
  ground arith,
  is_active-eq x.state (ground arith),
  (
    λ e. false≢true (sym (ap not ((eq_iff w "").1 e)) ∙ k),
    opt_eq-eq x.organization_id o (ground arith),
    opt_eq-eq x.workspace_id w (ground arith),
  ),
)

IsRead-active_in :
    (endpoint : Uuid) (o w : Option String) (x : RouteRow)
    → IsRead endpoint o w x
    → (scope_is_complete o w ≡ true) × (active_in endpoint o w x ≡ true)
unfolding active_in scope_is_complete
IsRead-active_in endpoint none none x (e, a, l) = (refl, rw (e, a) (ground arith))
IsRead-active_in endpoint none (some w) x (e, a, l) = absurd l
IsRead-active_in endpoint (some o) none x (e, a, l) = absurd l
IsRead-active_in endpoint (some o) (some w) x (e, a, (n, l, m)) = (
  elim (Bool-cases (str_eq w "")) [ inl h ↦ absurd (n ((eq_iff w "").0 h)) | inr h ↦ ap not h ],
  rw (e, a, l, m) (bound endpoint o w),
)
  where
    bound :
        (endpoint : Uuid) (o w : String)
        → ((endpoint == endpoint)
            && (true && (opt_eq (some o) (some o) && opt_eq (some w) (some w))))
          ≡ true
    bound endpoint o w = rw (eq_refl o, eq_refl w) (ground arith)

-- The rows of `gateway_routes` are, in some order, those that `active_routes` reads, each as often as
-- it is stored, and others: what it reads is bound to the endpoint, ACTIVE and in the scope, none of the
-- others is, and what it reads stands by ascending priority and, within one priority, ascending id.
pub active_rows_partition :
    (endpoint : Uuid) (o w : Option String) (s : Store)
    → (others : List RouteRow) × Perm s.routes (active_rows endpoint o w s ++ others)
      × All (IsRead endpoint o w) (active_rows endpoint o w s)
      × All (λ x. IsRead endpoint o w x → ⊥) others
      × InOrder (active_rows endpoint o w s)
unfolding active_rows
active_rows_partition endpoint o w s = elim (Bool-cases (scope_is_complete o w)) [
  | inr e ↦ rw e (
    s.routes,
    Perm.refl s.routes,
    tt,
    none_read _ s.routes λ x k. false≢true (sym e ∙ (IsRead-active_in endpoint o w x k).0),
    tt,
  )
  | inl e ↦
      let p = active_in endpoint o w in
      let read = select p s.routes in
      let others = select (λ x. not (p x)) s.routes in
      rw e (
        others,
        Perm.trans (select-partition p s.routes)
            (Perm.append_right others (Perm.symm (order_by-Perm read))),
        order_by-All (IsRead endpoint o w) read (
            All-map read (λ x k. active_in-IsRead endpoint o w x e k.1)
              (select-All (λ x. Unit {0}) p s.routes (none_read _ s.routes λ x. tt))),
        All-map others
            (λ x k r. false≢true (sym (ap not (IsRead-active_in endpoint o w x r).1) ∙ k.1))
            (select-All (λ x. Unit {0}) (λ x. not (p x)) s.routes (none_read _ s.routes λ x. tt)),
        IsSorted-InOrder (order_by by_priority read) (order_by-IsSorted read),
      )
]
