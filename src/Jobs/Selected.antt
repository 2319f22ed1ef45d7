-- ===== src/Jobs/Selected.antt =====
-- The rows that a statement selects: each id once, each with its row, and each passing the test.
use crm_silmer.Base.{
  text_eq, nat_eq, ◌==◌, Bool-cases, any, keep, All, Table, lookup, IsMap, insert, sort, any-sort,
  ℕ, zero, suc, String, ◌≡◌, refl, ◌∙◌, inl, inr, Bool, true, false, ◌||◌, none, some, List, [],
  ◌∷◌, arith, eq_iff,
}
use crm_silmer.Jobs.{Job}
use crm_silmer.Jobs.Commands.{Database, Row, take, is_picked}

abbrev pub has_id : String → List Row → Bool
has_id i rows = any (λ (r : Row). r.0 == i) rows

abbrev pub AreDistinct : List Row → Type 0
AreDistinct [] = Unit
AreDistinct (r ∷ rows) = (has_id r.0 rows ≡ false) × AreDistinct rows

-- A row as it stands in the table, with a test that it passes.
abbrev pub Stands : Table Job → (Job → Bool) → Row → Type 0
Stands jobs test r = (lookup r.0 jobs ≡ some r.1) × (test r.1 ≡ true)

has_id-of-missing : (i : String) (m : Table Job) → lookup i m ≡ none → has_id i m ≡ false
unfolding lookup
has_id-of-missing i [] h = refl
has_id-of-missing i ((k, v) ∷ m) h = ground (arith, has_id-of-missing i m)

AreDistinct-map : (m : Table Job) → IsMap m → AreDistinct m
AreDistinct-map [] h = tt
AreDistinct-map ((k, v) ∷ m) h = (has_id-of-missing k m h.0, AreDistinct-map m h.1)

All-imp {ℓ κ μ} :
    {A : Type ℓ} {P : A → Type κ} {Q : A → Type μ} (f : (x : A) → P x → Q x) (xs : List A)
    → All P xs
    → All Q xs
All-imp f [] h = tt
All-imp f (x ∷ xs) h = (f x h.0, All-imp f xs h.1)

pub lookup_self : (m : Table Job) → IsMap m → All (λ (r : Row). lookup r.0 m ≡ some r.1) m
unfolding lookup
lookup_self [] h = tt
lookup_self ((k, v) ∷ m) h = (
  ground (arith, eq_iff k k),
  All-imp (λ (r : Row) (e : lookup r.0 m ≡ some r.1). ground (arith, eq_iff k r.0)) m
      (lookup_self m h.1),
)

module _ (P : Row → Type 0) (p : Row → Bool) where
  All-keep : (rows : List Row) → All P rows → All (λ r. P r × (p r ≡ true)) (keep p rows)
  All-keep [] h = tt
  All-keep (r ∷ rows) h = elim (Bool-cases (p r)) [
    | inl kept ↦ rw kept ((h.0, kept), All-keep rows h.1)
    | inr gone ↦ rw gone (All-keep rows h.1)
  ]

module _ (P : Row → Type 0) (le : Row → Row → Bool) where
  All-insert : (x : Row) (rows : List Row) → P x → All P rows → All P (insert le x rows)
  All-insert x [] p h = (p, tt)
  All-insert x (r ∷ rows) p h = elim (Bool-cases (le x r)) [
    | inl first ↦ rw first (p, h)
    | inr later ↦ rw later (h.0, All-insert x rows p h.1)
  ]

  All-sort : (rows : List Row) → All P rows → All P (sort le rows)
  All-sort [] h = tt
  All-sort (r ∷ rows) h = All-insert r (sort le rows) h.0 (All-sort rows h.1)

All-take : (P : Row → Type 0) (n : ℕ) (rows : List Row) → All P rows → All P (take n rows)
All-take P n [] h = tt
All-take P zero (r ∷ rows) h = tt
All-take P (suc n) (r ∷ rows) h = (h.0, All-take P n rows h.1)

has_id-keep :
    (i : String) (p : Row → Bool) (rows : List Row)
    → has_id i rows ≡ false
    → has_id i (keep p rows) ≡ false
has_id-keep i p [] h = refl
has_id-keep i p (r ∷ rows) h = ground (arith, has_id-keep i p rows)

AreDistinct-keep : (p : Row → Bool) (rows : List Row) → AreDistinct rows → AreDistinct (keep p rows)
AreDistinct-keep p [] h = tt
AreDistinct-keep p (r ∷ rows) h = elim (Bool-cases (p r)) [
  | inl kept ↦ rw kept (has_id-keep r.0 p rows h.0, AreDistinct-keep p rows h.1)
  | inr gone ↦ rw gone (AreDistinct-keep p rows h.1)
]

module _ (le : Row → Row → Bool) where
  has_id-insert :
      (i : String) (x : Row) (rows : List Row)
      → has_id i (insert le x rows) ≡ (x.0 == i || has_id i rows)
  has_id-insert i x [] = refl
  has_id-insert i x (r ∷ rows) = ground (arith, has_id-insert i x rows)

  AreDistinct-insert :
      (x : Row) (rows : List Row)
      → has_id x.0 rows ≡ false
      → AreDistinct rows
      → AreDistinct (insert le x rows)
  AreDistinct-insert x [] new h = (refl, tt)
  AreDistinct-insert x (r ∷ rows) new h = elim (Bool-cases (le x r)) [
    | inl first ↦ rw first (new, h)
    | inr later ↦ rw later (
      ground (arith, has_id-insert r.0 x rows, eq_iff r.0 x.0, eq_iff x.0 r.0),
      AreDistinct-insert x rows (ground arith) h.1,
    )
  ]

  AreDistinct-sort : (rows : List Row) → AreDistinct rows → AreDistinct (sort le rows)
  AreDistinct-sort [] h = tt
  AreDistinct-sort (r ∷ rows) h =
      AreDistinct-insert r (sort le rows) (any-sort le (λ (x : Row). x.0 == r.0) rows ∙ h.0)
        (AreDistinct-sort rows h.1)

has_id-take :
    (i : String) (n : ℕ) (rows : List Row) → has_id i rows ≡ false → has_id i (take n rows) ≡ false
has_id-take i n [] h = refl
has_id-take i zero (r ∷ rows) h = refl
has_id-take i (suc n) (r ∷ rows) h = ground (arith, has_id-take i n rows)

AreDistinct-take : (n : ℕ) (rows : List Row) → AreDistinct rows → AreDistinct (take n rows)
AreDistinct-take n [] h = tt
AreDistinct-take zero (r ∷ rows) h = tt
AreDistinct-take (suc n) (r ∷ rows) h = (has_id-take r.0 n rows h.0, AreDistinct-take n rows h.1)

module _ (db : Database) (test : Job → Bool) (le : Row → Row → Bool) (jobs : Table Job)
    (keyed : IsMap jobs) where
  picked : List Row
  picked = sort le (keep (is_picked db test) jobs)

  Stands-picked : All (Stands jobs test) picked
  unfolding picked
  Stands-picked = All-sort (Stands jobs test) le (keep (is_picked db test) jobs) (
      All-imp
        (λ (r : Row) (h : (lookup r.0 jobs ≡ some r.1) × (is_picked db test r ≡ true)).
          ground arith)
        (keep (is_picked db test) jobs)
        (All-keep (λ (r : Row). lookup r.0 jobs ≡ some r.1) (is_picked db test) jobs
          (lookup_self jobs keyed)))

  AreDistinct-picked : AreDistinct picked
  unfolding picked
  AreDistinct-picked =
      AreDistinct-sort le (keep (is_picked db test) jobs)
        (AreDistinct-keep (is_picked db test) jobs (AreDistinct-map jobs keyed))

  -- What `SELECT … ORDER BY … LIMIT` hands out.
  pub Stands-select :
      (n : ℕ)
      → All (Stands jobs test) (take n (sort le (keep (is_picked db test) jobs)))
        × AreDistinct (take n (sort le (keep (is_picked db test) jobs)))
  unfolding picked
  Stands-select n = (
    All-take (Stands jobs test) n picked Stands-picked,
    AreDistinct-take n picked AreDistinct-picked,
  )
