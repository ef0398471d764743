-- ===== src/Edits/History.antt =====
-- edit.go: runs of the edit plane one after the other, by whatever callers and whatever fails.
use terraform_state_manager.Prelude.{
  ℕ, List, [], ◌∷◌, Bool, true, false, Option, none, some, Bytes, not, Result,
}
use terraform_state_manager.Edits.Store.{Store}
use terraform_state_manager.Edits.World.{World, Call}
use terraform_state_manager.Edits.Guarded.{Codec, edit_state}
use terraform_state_manager.Edits.Operate.{Operation, state_operation}
use terraform_state_manager.Edits.Restore.{restore_backup}

-- A request to the edit plane with what its surroundings give, and the source that it resolves to.
pub data Request : Type 0 where
  edits : Call → Bool → Bytes → Option Bytes → Result ℕ Bytes → Request
  operates : Call → Bytes → Option Operation → Result ℕ Bytes → Request
  restores : Call → Bytes → Result ℕ Bytes → Request

abbrev purges : Option Operation → Bool
purges none = false
purges (some r) = r.purge

unfoldable pub is_retaining : Request → Bool
is_retaining (edits call force key body source) = true
is_retaining (operates call key r source) = not (purges r)
is_retaining (restores call id source) = true

module _ {B : Type 0} (store : Store B) (codec : Codec) where
  unfoldable pub handle : Request → World B → World B
  unfolding edit_state state_operation restore_backup
  handle (edits call force key body source) w =
      (edit_state store codec call force key body source w).0
  handle (operates call key r source) w = (state_operation codec store call key r source w).0
  handle (restores call id source) w = (restore_backup store codec call id source w).0

  unfoldable pub handle_all : List Request → World B → World B
  unfolding handle
  handle_all [] w = w
  handle_all (r ∷ rs) w = handle_all rs (handle r w)
