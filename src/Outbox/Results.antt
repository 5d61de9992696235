-- ===== src/Outbox/Results.antt =====
-- The integration errors of product/src/cyrene_exchange_product/integrations/models.py, the other
-- exceptions that leave the store, and transactions.
use cyrene_exchange.Prelude.{
  if◌then◌else◌, ◌≡◌, refl, ◌⊎◌, inl, inr, Bool, true, false, Option, none, some, String,
}

-- `integrity` is `sqlite3.IntegrityError`, which SQLite raises on a violated constraint.
pub data Error : Type 0 where
  not_found : String → Error
  authorization : String → Error
  conflict : String → Error
  validation : String → Error
  value_error : String → Error
  integrity : String → Error

pub data Result {ℓ} (A : Type ℓ) : Type ℓ where
  err : Error → Result A
  ok : A → Result A

-- `if not test: raise error`
abbrev pub guard : Bool → Error → Result (Unit {0})
guard test error = if test then ok tt else err error

-- `if row is None: raise error`
abbrev pub or_raise {ℓ} : {A : Type ℓ} → Option A → Error → Result A
or_raise (some row) error = ok row
or_raise none error = err error

module _ {ℓ κ} {A : Type ℓ} {B : Type κ} where
  infixl 5 ◌>>=◌
  -- The statement that raises is the last one.
  abbrev pub ◌>>=◌ : Result A → (A → Result B) → Result B
  err raised >>= next = err raised
  ok value >>= next = next value

  -- A block that returns has a first statement that returns, and a rest that returns.
  pub >>=-eq-ok :
      (first : Result A) (next : A → Result B) {end : B}
      → (first >>= next) ≡ ok end
      → (value : A) × (first ≡ ok value) × (next value ≡ ok end)
  >>=-eq-ok (err raised) next h = cc
  >>=-eq-ok (ok value) next h = (value, refl, h)

module _ {ℓ} {B : Type ℓ} where
  infixl 5 ◌>>◌
  abbrev pub ◌>>◌ : Result (Unit {0}) → Result B → Result B
  check >> rest = check >>= λ _. rest

pub or_raise-eq-ok {ℓ} :
    {A : Type ℓ} (o : Option A) (e : Error) {a : A} → or_raise o e ≡ ok a → o ≡ some a
or_raise-eq-ok none e h = cc
or_raise-eq-ok (some a) e h = cc

pub Result-cases {ℓ} :
    {A : Type ℓ} (r : Result A) → ((e : Error) × (r ≡ err e)) ⊎ ((a : A) × (r ≡ ok a))
Result-cases (ok a) = inr (a, refl)
Result-cases (err e) = inl (e, refl)

pub guard-eq-ok : (b : Bool) (e : Error) {u : Unit {0}} → guard b e ≡ ok u → b ≡ true
guard-eq-ok false e h = cc
guard-eq-ok true e h = refl

-- `IntegrationStore._transaction`: commit what the body wrote, or roll all of it back.
abbrev pub transaction : {S A : Type 0} → (S → Result (A × S)) → S → Result A × S
transaction body s = elim (body s) [ ok (a, s') ↦ (ok a, s') | err e ↦ (err e, s) ]

-- A transaction that returns has committed what its body wrote.
pub transaction-eq-ok :
    {S A : Type 0} (body : S → Result (A × S)) {s t : S} {a : A}
    → transaction body s ≡ (ok a, t)
    → body s ≡ ok (a, t)
transaction-eq-ok {S = S} {A = A} body {s} {t} {a} h = go (body s) h
  where
    go :
        (r : Result (A × S))
        → elim r as (λ x. Result A × S) [ ok (a, s') ↦ (ok a, s') | err e ↦ (err e, s) ] ≡ (ok a, t)
        → r ≡ ok (a, t)
    go (ok (b, s')) h = cc
    go (err e) h = cc

-- One that raises has written nothing.
pub transaction-eq-err :
    {S A : Type 0} (body : S → Result (A × S)) {s t : S} {x : Error}
    → transaction body s ≡ (err x, t)
    → (body s ≡ err x) × (s ≡ t)
transaction-eq-err {S = S} {A = A} body {s} {t} {x} h = go (body s) h
  where
    go :
        (r : Result (A × S))
        → elim r as (λ x. Result A × S) [ ok (a, s') ↦ (ok a, s') | err e ↦ (err e, s) ]
          ≡ (err x, t)
        → (r ≡ err x) × (s ≡ t)
    go (ok (b, s')) h = cc
    go (err e) h = (cc, cc)
