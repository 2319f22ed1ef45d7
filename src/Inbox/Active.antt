-- ===== src/Inbox/Active.antt =====
-- The conversations of a scope that go on.
use crm_silmer.Base.{
  text_eq, nat_eq, ◌==◌, find, find_sound, find-keep, is_some-find, Table, lookup, put, values,
  lookup-put, any-false-at, IsMap, put-IsMap, find-lookup, String, ◌≡◌, sym, ◌∙◌, subst, ◌≢◌, ◌&&◌,
  Option, none, some, List, [], ◌∷◌, arith, eq_iff,
}
use crm_silmer.Inbox.{Conversation, Inbox}
use crm_silmer.Inbox.Inbounds.{scoped, is_ongoing}
use crm_silmer.Inbox.Effects.{
  Operation, step, run, Effect, idle, opens, refreshes, changes, step-Effect,
}

pub record IsValid (t : Table Conversation) : Type 0 where
  pub unique : IsMap t
  pub keyed : (k : String) (c : Conversation) → lookup k t ≡ some c → c.id ≡ k
  pub one :
      (j k : String) (c c' : Conversation)
      → lookup j t ≡ some c
      → lookup k t ≡ some c'
      → c.terminal_at ≡ none
      → c'.terminal_at ≡ none
      → c.scope ≡ c'.scope
      → j ≡ k

-- A conversation that goes on and is changed keeps its id and scope.
put-IsValid :
    (t : Table Conversation) (k : String) (c c' : Conversation)
    → IsValid t
    → lookup k t ≡ some c
    → c.terminal_at ≡ none
    → c'.id ≡ c.id
    → c'.scope ≡ c.scope
    → IsValid (put k c' t)
put-IsValid t k c c' v found ongoing id scope = record {
  unique = put-IsMap k c' t v.unique;
  keyed = λ j g h. ground (arith, lookup-put k j c' t, eq_iff k j, v.keyed j g, v.keyed k c);
  one = λ i j g g' li lj o o' same. ground (
    arith,
    lookup-put k i c' t,
    lookup-put k j c' t,
    eq_iff k i,
    eq_iff k j,
    v.one i j g g',
    v.one k j c g',
    v.one i k g c,
  );
}

none_ongoing :
    (s : Inbox) (scope k : String) (c : Conversation)
    → find is_ongoing (scoped scope s) ≡ none
    → lookup k s.conversations ≡ some c
    → c.terminal_at ≡ none
    → c.scope ≢ scope
none_ongoing s scope k c h found ongoing same =
    let both =
      find-keep is_ongoing (λ (c : Conversation). c.scope == scope) (values s.conversations) in
    let agree =
      is_some-find (λ (c : Conversation). c.scope == scope && is_ongoing c)
        (values s.conversations) in
    let missed =
      any-false-at (λ (c : Conversation). c.scope == scope && is_ongoing c) s.conversations k
        {v = c} (ground (arith, both, agree, h)) found in
    ground (arith, missed, eq_iff c.scope scope)

put-IsValid_new :
    (s : Inbox) (c : Conversation)
    → IsValid s.conversations
    → find is_ongoing (scoped c.scope s) ≡ none
    → IsValid (put c.id c s.conversations)
put-IsValid_new s c v free = record {
  unique = put-IsMap c.id c s.conversations v.unique;
  keyed = λ j g h. ground (arith, lookup-put c.id j c s.conversations, eq_iff c.id j, v.keyed j g);
  one = λ i j g g' li lj o o' same. ground (
    arith,
    lookup-put c.id i c s.conversations,
    lookup-put c.id j c s.conversations,
    eq_iff c.id i,
    eq_iff c.id j,
    v.one i j g g',
    none_ongoing s c.scope i g free,
    none_ongoing s c.scope j g' free,
  );
}

-- The conversation that `find` gives stands under its id.
pub found_under_id :
    (s : Inbox) (scope : String) (c : Conversation)
    → IsValid s.conversations
    → find is_ongoing (scoped scope s) ≡ some c
    → lookup c.id s.conversations ≡ some c
found_under_id s scope c v h =
    let both =
      find-keep is_ongoing (λ (c : Conversation). c.scope == scope) (values s.conversations) in
    let (k, found) =
      find-lookup (λ (c : Conversation). c.scope == scope && is_ongoing c) s.conversations c
        v.unique (sym both ∙ h) in
    subst (λ x. lookup x s.conversations ≡ some c) (sym (v.keyed k c found)) found

pub Effect-IsValid :
    {s t : Inbox} {new : Option String}
    → Effect s t new
    → IsValid s.conversations
    → IsValid t.conversations
Effect-IsValid (idle same) v = rw same v
Effect-IsValid {s} (opens c same free id ongoing led cycle) v = rw same (put-IsValid_new s c v free)
Effect-IsValid {s} (refreshes c c' same found id scope kept led epoch version) v =
    let here = found_under_id s c.scope c v found in
    let goes_on = find_sound is_ongoing (scoped c.scope s) found in
    rw same (put-IsValid s.conversations c.id c c' v here (ground (arith, goes_on)) id scope)
Effect-IsValid {s} (changes k c c' same found ongoing id scope led epoch version) v =
    rw same (put-IsValid s.conversations k c c' v found ongoing id scope)

-- From valid conversations, whatever operations run, answered or refused, a scope has at most one
-- conversation that goes on.
pub run-IsValid :
    (s : Inbox) (os : List Operation) → IsValid s.conversations → IsValid (run s os).conversations
unfolding run
run-IsValid s [] v = v
run-IsValid s (o ∷ os) v = run-IsValid (step s o) os (Effect-IsValid (step-Effect s o) v)
