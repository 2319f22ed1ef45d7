-- ===== src/Qualification/Blocked.antt =====
-- Assessments and the blockers of the gates.
use crm_silmer.Base.{
  text_eq, nat_eq, ◌==◌, Bool-cases, any, all, any-append, keep, Table, lookup, put, values,
  lookup-put, any-false-at, sort, any-sort, String, ◌≡◌, refl, sym, ap, ◌∙◌, subst, ◌↔◌, inl, inr,
  Bool, true, false, not, ◌&&◌, ◌||◌, some, List, [], ◌∷◌, ◌++◌, arith, eq_iff,
}
use crm_silmer.Qualification.{Assessment, State}
use crm_silmer.Qualification.Registry.{Stage}
use crm_silmer.Qualification.Gates.{
  is_none_left, latest_from, latest, sets_aside, gate_blockers, keeps_open, names, with_open,
  unsorted_blockers,
}
use crm_silmer.Qualification.Evaluate.{not_after, evaluate}

lookup-latest_from :
    (t : Table Assessment) (as' : List Assessment) (a : Assessment)
    → lookup a.field (latest_from t (as' ++ (a ∷ []))) ≡ some a
unfolding latest_from
lookup-latest_from t [] a = ground (arith, lookup-put a.field a.field a t, eq_iff a.field a.field)
lookup-latest_from t (b ∷ bs) a = lookup-latest_from (put b.field b t) bs a

names-with_open :
    (s : State) (stage : Stage) (as' : List Assessment) (blockers : List String) (f : String)
    → names f (with_open s stage as' blockers)
      ≡ (names f blockers || any (λ a. keeps_open s stage a && Assessment.field a == f) as')
names-with_open s stage [] blockers f = ground arith
names-with_open s stage (a ∷ rest) blockers f =
    let more = any-append (λ g. g == f) blockers (a.field ∷ []) in
    elim (Bool-cases (keeps_open s stage a && not (names a.field blockers))) [
      | inl adds ↦
          rw adds (
            ground (arith, adds, names-with_open s stage rest (blockers ++ (a.field ∷ [])) f, more))
      | inr skips ↦
          rw skips
            (ground (arith, skips, names-with_open s stage rest blockers f, eq_iff a.field f))
    ]

is_none_left-named : (f : String) (fs : List String) → names f fs ≡ true → is_none_left fs ≡ false
is_none_left-named f [] h = cc
is_none_left-named f (g ∷ fs) h = refl

is_none_left-append : (f : String) (fs : List String) → is_none_left (fs ++ (f ∷ [])) ≡ false
is_none_left-append f [] = refl
is_none_left-append f (g ∷ fs) = refl

is_none_left-with_open :
    (s : State) (stage : Stage) (as' : List Assessment) (blockers : List String)
    → is_none_left (with_open s stage as' blockers)
      ≡ (is_none_left blockers && not (any (keeps_open s stage) as'))
is_none_left-with_open s stage [] blockers = ground arith
is_none_left-with_open s stage (a ∷ rest) blockers =
    elim (Bool-cases (keeps_open s stage a && not (names a.field blockers))) [
      | inl adds ↦ rw adds (
          ground (
            arith,
            adds,
            is_none_left-with_open s stage rest (blockers ++ (a.field ∷ [])),
            is_none_left-append a.field blockers,
          ))
      | inr skips ↦ rw skips (
          ground (
            arith,
            skips,
            is_none_left-with_open s stage rest blockers,
            is_none_left-named a.field blockers,
          ))
    ]

is_none_left-keep :
    (p : String → Bool) (fs : List String) → is_none_left (keep (λ f. not (p f)) fs) ≡ all p fs
is_none_left-keep p [] = refl
is_none_left-keep p (f ∷ fs) = ground (arith, is_none_left-keep p fs)

is_none_left-any : (fs : List String) → is_none_left fs ≡ not (any (λ f. true) fs)
is_none_left-any [] = refl
is_none_left-any (f ∷ fs) = refl

-- A gate is complete exactly when each of its blockers is set aside by the latest assessment of the
-- field, and no latest assessment keeps a required field of the stage open.
pub evaluate-complete_iff :
    (before_in_locale : String → String → Bool) (s : State) (stage : Stage)
    → ((evaluate before_in_locale s stage).complete ≡ true) ↔ (
        (all (sets_aside s) (gate_blockers s stage) ≡ true)
        × (any (keeps_open s stage) (values (latest s)) ≡ false))
unfolding evaluate unsorted_blockers
evaluate-complete_iff before_in_locale s stage =
    let fs = unsorted_blockers s stage in
    let le = not_after before_in_locale s in
    let sorted : is_none_left (sort le fs) ≡ is_none_left fs =
      is_none_left-any (sort le fs)
      ∙ ap not (any-sort le (λ f. true) fs)
      ∙ sym (is_none_left-any fs) in
    let open_ones =
      is_none_left-with_open s stage (values (latest s))
        (keep (λ f. not (sets_aside s f)) (gate_blockers s stage)) in
    let aside = is_none_left-keep (sets_aside s) (gate_blockers s stage) in
    (
      λ h. (
        ground (arith, h, sorted, open_ones, aside),
        ground (arith, h, sorted, open_ones, aside),
      ),
      λ h. ground (arith, h.0, h.1, sorted, open_ones, aside),
    )

any-at :
    (p : Assessment → Bool) (t : Table Assessment) (k : String) {a : Assessment}
    → lookup k t ≡ some a
    → p a ≡ true
    → any p (values t) ≡ true
any-at p t k {a} h e = elim (Bool-cases (any p (values t))) [
  | inl found ↦ found
  | inr missed ↦ ground (arith, e, any-false-at p t k {v = a} missed h)
]

-- When the last assessment keeps a required field of the stage open, the gate of the stage is not
-- complete and its blockers have that field, whatever was assessed before.
pub evaluate-open :
    (before_in_locale : String → String → Bool) (s : State) (stage : Stage)
    (earlier : List Assessment) (a : Assessment)
    → s.assessments ≡ earlier ++ (a ∷ [])
    → keeps_open s stage a ≡ true
    → (names a.field (evaluate before_in_locale s stage).blockers ≡ true)
      × ((evaluate before_in_locale s stage).complete ≡ false)
unfolding evaluate unsorted_blockers
evaluate-open before_in_locale s stage earlier a last keeps =
    let le = not_after before_in_locale s in
    let found : lookup a.field (latest s) ≡ some a =
      subst (λ l. lookup a.field (latest_from [] l) ≡ some a) (sym last)
        (lookup-latest_from [] earlier a) in
    let there =
      any-at (λ b. keeps_open s stage b && Assessment.field b == a.field) (latest s) a.field found
        (ground (arith, keeps, eq_iff a.field a.field)) in
    let named : names a.field (unsorted_blockers s stage) ≡ true = ground (
      arith,
      there,
      names-with_open s stage (values (latest s))
          (keep (λ f. not (sets_aside s f)) (gate_blockers s stage)) a.field,
    ) in
    let sorted : names a.field (sort le (unsorted_blockers s stage)) ≡ true =
      any-sort le (λ f. f == a.field) (unsorted_blockers s stage) ∙ named in
    (sorted, is_none_left-named a.field (sort le (unsorted_blockers s stage)) sorted)
