-- ===== src/Jobs/Tables.antt =====
-- What the statements do to the rows that an id finds.
use crm_silmer.Base.{
  text_eq, nat_eq, ◌==◌, if◌then◌else◌, is_some, Option-cases, Table, lookup, IsMap, ℕ, String, ◌≡◌,
  refl, inl, inr, true, Option, none, some, [], ◌∷◌, arith, eq_iff,
}
use crm_silmer.Jobs.{Attempt, adjust}
use crm_silmer.Jobs.Rows.{attempt_at}

module _ {ℓ} {V : Type ℓ} where
  abbrev pub mapped : (V → V) → Option V → Option V
  mapped f none = none
  mapped f (some v) = some (f v)

  pub lookup-adjust :
      (k j : String) (f : V → V) (m : Table V)
      → lookup j (adjust k f m) ≡ (if k == j then mapped f (lookup j m) else lookup j m)
  unfolding lookup adjust
  lookup-adjust k j f [] = ground arith
  lookup-adjust k j f ((i, w) ∷ m) =
      ground (arith, eq_iff k j, eq_iff i k, eq_iff i j, lookup-adjust k j f m)

  -- The row that a row was before the statement.
  pub lookup-adjust-eq-some :
      (k j : String) (f : V → V) (m : Table V) {v : V}
      → lookup j (adjust k f m) ≡ some v
      → (w : V) × (lookup j m ≡ some w) × (v ≡ (if k == j then f w else w))
  lookup-adjust-eq-some k j f m {v} h = elim (Option-cases (lookup j m)) [
    | inl missing ↦ absurd (ground (arith, lookup-adjust k j f m, missing))
    | inr (w, found) ↦ (w, found, ground (arith, lookup-adjust k j f m, found))
  ]

  pub is_some-lookup-adjust :
      (k j : String) (f : V → V) (m : Table V)
      → is_some (lookup j (adjust k f m)) ≡ is_some (lookup j m)
  is_some-lookup-adjust k j f m = ground (arith, lookup-adjust k j f m)

  pub adjust_self : (k : String) (m : Table V) → adjust k (λ v. v) m ≡ m
  unfolding adjust
  adjust_self k [] = refl
  adjust_self k ((j, w) ∷ m) = ground (arith, adjust_self k m)

  pub adjust-IsMap : (k : String) (f : V → V) (m : Table V) → IsMap m → IsMap (adjust k f m)
  unfolding lookup adjust
  adjust-IsMap k f [] h = tt
  adjust-IsMap k f ((j, w) ∷ m) h =
      ground (arith, adjust-IsMap k f m, lookup-adjust k j f m, eq_iff j k, eq_iff k j)

pub attempt_at_sound :
    (job_id : String) (number : ℕ) (m : Table Attempt) (id : String) (a : Attempt)
    → IsMap m
    → attempt_at job_id number m ≡ some (id, a)
    → (lookup id m ≡ some a) × (a.job_id ≡ job_id) × (a.attempt_no ≡ number)
unfolding attempt_at lookup
attempt_at_sound job_id number [] id a k h = cc
attempt_at_sound job_id number ((i, b) ∷ m) id a k h =
    ground (arith, attempt_at_sound job_id number m id a, eq_iff i id, eq_iff b.job_id job_id)

pub attempt_at_complete :
    (job_id : String) (number : ℕ) (m : Table Attempt) (id : String) (a : Attempt)
    → lookup id m ≡ some a
    → a.job_id ≡ job_id
    → a.attempt_no ≡ number
    → is_some (attempt_at job_id number m) ≡ true
unfolding attempt_at lookup
attempt_at_complete job_id number [] id a h p r = cc
attempt_at_complete job_id number ((i, b) ∷ m) id a h p r =
    ground (arith, attempt_at_complete job_id number m id a, eq_iff i id, eq_iff b.job_id job_id)
