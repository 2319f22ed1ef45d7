-- ===== src/Work/Commands.antt =====
-- The commands of the work repository as one type, and runs of them. A command that throws leaves
-- the maps as they were, since every check stands before the first write.
use crm_silmer.Base.{ℕ, String, List, [], ◌∷◌, Result, after}
use crm_silmer.Work.{WorkError, Store, Stamp, assign_deal}
use crm_silmer.Work.Tasks.{CreateTask, UpdateTask, create_task, update_task}
use crm_silmer.Work.Handoffs.{CreateHandoff, create_handoff}
use crm_silmer.Work.Answers.{UpdateHandoff, ClaimHandoff, update_handoff, claim_handoff}

pub data Command : Type 0 where
  assigns : Stamp → String → ℕ → String → Command
  creates_task : CreateTask → String → Command
  updates_task : UpdateTask → Command
  creates_handoff : CreateHandoff → String → String → Command
  updates_handoff : UpdateHandoff → Command
  claims_handoff : ClaimHandoff → Command

unfoldable pub execute : Store → Command → Result WorkError Store
execute s (assigns input deal_id version user_id) = assign_deal s input deal_id version user_id
execute s (creates_task input id) = create_task s input id
execute s (updates_task input) = update_task s input
execute s (creates_handoff input handoff_id task_id) = create_handoff s input handoff_id task_id
execute s (updates_handoff input) = update_handoff s input
execute s (claims_handoff input) = claim_handoff s input

unfoldable pub run : Store → List Command → Store
run s [] = s
run s (c ∷ cs) = run (after s (execute s c)) cs
