-- ===== src/Deals/Trace.antt =====
-- The history of the deals against their stages and versions.
use crm_silmer.Base.{
  text_eq, nat_eq, ◌==◌, if◌then◌else◌, count, All, lookup, ◌+◌, String, ◌≡◌, Bool, some, List, [],
  ◌∷◌,
}
use crm_silmer.Deals.{Stage, produto, Deal, Entry, DealRepo, stage_or}
use crm_silmer.Deals.Checks.{IsKeyed}
use crm_silmer.Deals.Changes.{IsStep}

-- The stage of a deal after the entries, from the one it had.
unfoldable pub replayed : String → Stage → List Entry → Stage
replayed id stage [] = stage
replayed id stage (e ∷ es) =
    replayed id (if e.deal_id == id then stage_or stage e.to_stage else stage) es

abbrev pub of_deal : String → Entry → Bool
of_deal id e = e.deal_id == id

-- Deals stand under their ids; each has the stage that its entries lead to from `produto` and a
-- version one above their number; and every entry moves along the stages.
pub record IsTraced (r : DealRepo) : Type 0 where
  pub keyed : IsKeyed r
  pub staged :
      (k : String) (d : Deal) → lookup k r.deals ≡ some d → d.stage ≡ replayed k produto r.history
  pub versioned :
      (k : String) (d : Deal)
      → lookup k r.deals ≡ some d
      → d.version ≡ 1 + count (of_deal k) r.history
  pub steps : All IsStep r.history
