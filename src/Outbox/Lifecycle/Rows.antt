-- ===== src/Outbox/Lifecycle/Rows.antt =====
-- Rows with distinct ids, and what an UPDATE by id and an INSERT do to them.
use mathlib.Core.Bool.{false≢true}
use cyrene_exchange.Prelude.{
  ap, ==_iff, ◌∙◌, All-map, sym, All, select, ◌≡◌, refl, ◌⊎◌, inl, inr, Bool, true, false, some,
  List, [], ◌∷◌, ◌++◌, arith, ◌==◌, Bool-cases, fetchone, any, any-append, Uuid,
}
use cyrene_exchange.Outbox.Models.{OutboxJob}
use cyrene_exchange.Outbox.Tables.{has_id, replace_job}

-- PRIMARY KEY(id)
abbrev pub IsUnique : List OutboxJob → Type 0
IsUnique [] = Unit {0}
IsUnique (j ∷ js) = (any (has_id j.id) js ≡ false) × IsUnique js

abbrev pub In : OutboxJob → List OutboxJob → Type 0
In j [] = ⊥
In j (k ∷ ks) = (k ≡ j) ⊎ In j ks

pub fetchone-In :
    (p : OutboxJob → Bool) (js : List OutboxJob) (j : OutboxJob) → fetchone p js ≡ some j → In j js
unfolding fetchone
fetchone-In p [] j h = cc
fetchone-In p (k ∷ ks) j h = elim (Bool-cases (p k)) [
  | inl e ↦ inl (ground arith)
  | inr e ↦ inr (fetchone-In p ks j (ground arith))
]

pub In-append : (j : OutboxJob) (js ks : List OutboxJob) → In j js → In j (js ++ ks)
In-append j [] ks h = absurd h
In-append j (x ∷ js) ks (inl e) = inl e
In-append j (x ∷ js) ks (inr m) = inr (In-append j js ks m)

pub any_of_In : (j : OutboxJob) (js : List OutboxJob) → In j js → any (has_id j.id) js ≡ true
unfolding any
any_of_In j [] h = absurd h
any_of_In j (x ∷ js) (inl e) = ground arith
any_of_In j (x ∷ js) (inr m) = ground (arith, any_of_In j js m)

pub any-replace :
    (i : Uuid) (k : OutboxJob) (js : List OutboxJob)
    → any (has_id i) (replace_job k js) ≡ any (has_id i) js
unfolding any replace_job
any-replace i k [] = refl
any-replace i k (x ∷ js) = ground (arith, any-replace i k js)

pub replace_absent :
    (k : OutboxJob) (js : List OutboxJob) → any (has_id k.id) js ≡ false → replace_job k js ≡ js
unfolding any replace_job
replace_absent k [] h = refl
replace_absent k (x ∷ js) h = ground (arith, replace_absent k js)

pub replace-IsUnique :
    (k : OutboxJob) (js : List OutboxJob) → IsUnique js → IsUnique (replace_job k js)
unfolding any replace_job
replace-IsUnique k [] u = tt
replace-IsUnique k (x ∷ js) u =
    (ground (arith, any-replace x.id k js, any-replace k.id k js), replace-IsUnique k js u.1)

pub append-IsUnique :
    (j : OutboxJob) (js : List OutboxJob)
    → IsUnique js
    → any (has_id j.id) js ≡ false
    → IsUnique (js ++ j ∷ [])
unfolding any
append-IsUnique j [] u h = (refl, tt)
append-IsUnique j (x ∷ js) u h =
    (ground (arith, any-append (has_id x.id) js (j ∷ [])), append-IsUnique j js u.1 (ground arith))

-- A row with another id stays.
pub In-replace :
    (j k : OutboxJob) (js : List OutboxJob) → (j.id ≡ k.id → ⊥) → In j js → In j (replace_job k js)
unfolding replace_job
In-replace j k [] ne h = absurd h
In-replace j k (x ∷ js) ne (inl e) = elim (Bool-cases (x.id == k.id)) [
  | inl same ↦ absurd (ne (ground arith))
  | inr differ ↦ inl (rw differ e)
]
In-replace j k (x ∷ js) ne (inr m) = inr (In-replace j k js ne m)

any-select-false :
    (i : Uuid) (p : OutboxJob → Bool) (js : List OutboxJob)
    → any (has_id i) js ≡ false
    → any (has_id i) (select p js) ≡ false
unfolding any select
any-select-false i p [] h = refl
any-select-false i p (x ∷ js) h = ground (arith, any-select-false i p js)

pub select-IsUnique :
    (p : OutboxJob → Bool) (js : List OutboxJob) → IsUnique js → IsUnique (select p js)
unfolding select
select-IsUnique p [] u = tt
select-IsUnique p (x ∷ js) u = elim (Bool-cases (p x)) [
  | inl e ↦ rw e (any-select-false x.id p js u.0, select-IsUnique p js u.1)
  | inr e ↦ rw e (select-IsUnique p js u.1)
]

-- A row with the id of an absent row is not there.
pub other_id :
    (i : Uuid) (j : OutboxJob) (js : List OutboxJob)
    → any (has_id i) js ≡ false
    → In j js
    → j.id ≡ i
    → ⊥
other_id i j js absent m e = false≢true (sym absent ∙ rw (← e) (any_of_In j js m))

pub In-select :
    (p : OutboxJob → Bool) (js : List OutboxJob) → All (λ j. In j js × (p j ≡ true)) (select p js)
unfolding select
In-select p [] = tt
In-select p (x ∷ js) = elim (Bool-cases (p x)) [
  | inl e ↦ rw e ((inl refl, e), All-map _ (λ j h. (inr h.0, h.1)) (In-select p js))
  | inr e ↦ rw e (All-map _ (λ j h. (inr h.0, h.1)) (In-select p js))
]

pub replace-In :
    (k : OutboxJob) (js : List OutboxJob) (j : OutboxJob)
    → In j js
    → j.id ≡ k.id
    → In k (replace_job k js)
unfolding replace_job
replace-In k [] j m e = absurd m
replace-In k (x ∷ js) j (inl p) e =
    (let same : (x.id == k.id) ≡ true = (==_iff x.id k.id).1 (ap (λ i. i.id) p ∙ e) in
      inl (rw same refl))
replace-In k (x ∷ js) j (inr m) e = inr (replace-In k js j m e)
