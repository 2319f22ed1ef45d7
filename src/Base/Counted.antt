-- ===== src/Base/Counted.antt =====
-- Versions against logs: the version of an entity is the number of its log entries.
use crm_silmer.Base.Tests.{◌==◌, nat_eq, text_eq}
use crm_silmer.Base.Lists.{count, count-append}
use crm_silmer.Base.Tables.{Table, lookup, put, lookup-put}
use Prim.Native.Nat.{ℕ, ◌+◌}
use Prim.Native.String.{String}
use mathlib.Core.Path.{◌≡◌}
use mathlib.Core.Bool.{Bool}
use mathlib.Core.Option.{some, none}
use mathlib.Core.List.{List, [], ◌∷◌, ◌++◌}
use native.Mathlib.Omega.{arith}
use text.Mathlib.TextEquality.{eq_iff}

-- The entries about one entity.
abbrev pub about : {E : Type 0} → (E → String) → String → E → Bool
about entity_of id e = entity_of e == id

-- Entities stand under their own id, their version counts their entries, and an id that is not in
-- use has none.
pub record IsCounted {V E : Type 0} (id_of : V → String) (version_of : V → ℕ)
    (entity_of : E → String) (t : Table V) (h : List E) : Type 0 where
  pub keyed : (k : String) (v : V) → lookup k t ≡ some v → id_of v ≡ k
  pub counted :
      (k : String) (v : V) → lookup k t ≡ some v → version_of v ≡ count (about entity_of k) h
  pub unused : (k : String) → lookup k t ≡ none → count (about entity_of k) h ≡ 0

module _ {V E : Type 0} (id_of : V → String) (version_of : V → ℕ) (entity_of : E → String)
    (t : Table V) (h : List E) (k : String) (v : V) (entry : E) where
  -- An entity that goes up by one version with one entry.
  pub put-IsCounted_bump :
      (w : V)
      → IsCounted id_of version_of entity_of t h
      → lookup k t ≡ some w
      → id_of v ≡ k
      → version_of v ≡ version_of w + 1
      → entity_of entry ≡ k
      → IsCounted id_of version_of entity_of (put k v t) (h ++ entry ∷ [])
  put-IsCounted_bump w c found id up mine = record {
    keyed = λ j x e. ground (arith, lookup-put k j v t, eq_iff k j, c.keyed j x);
    counted = λ j x e. ground (
      arith,
      lookup-put k j v t,
      eq_iff k j,
      eq_iff (entity_of entry) j,
      count-append (about entity_of j) h (entry ∷ []),
      c.counted j x,
      c.counted k w,
    );
    unused = λ j e. ground (
      arith,
      lookup-put k j v t,
      eq_iff k j,
      eq_iff (entity_of entry) j,
      count-append (about entity_of j) h (entry ∷ []),
      c.unused j,
    );
  }

  -- A new entity at version 1 with one entry.
  pub put-IsCounted_new :
      IsCounted id_of version_of entity_of t h
      → lookup k t ≡ none
      → id_of v ≡ k
      → version_of v ≡ 1
      → entity_of entry ≡ k
      → IsCounted id_of version_of entity_of (put k v t) (h ++ entry ∷ [])
  put-IsCounted_new c free id one mine = record {
    keyed = λ j x e. ground (arith, lookup-put k j v t, eq_iff k j, c.keyed j x);
    counted = λ j x e. ground (
      arith,
      lookup-put k j v t,
      eq_iff k j,
      eq_iff (entity_of entry) j,
      count-append (about entity_of j) h (entry ∷ []),
      c.counted j x,
      c.unused k,
    );
    unused = λ j e. ground (
      arith,
      lookup-put k j v t,
      eq_iff k j,
      eq_iff (entity_of entry) j,
      count-append (about entity_of j) h (entry ∷ []),
      c.unused j,
    );
  }
