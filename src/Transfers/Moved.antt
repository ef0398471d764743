-- ===== src/Transfers/Moved.antt =====
-- transfer.go: what holds when a migration has emptied its source.
use terraform_state_manager.Prelude.{true, some, ◌≡◌, Bytes}
use terraform_state_manager.Edits.Store.{Store}
use terraform_state_manager.Edits.World.{World}
use terraform_state_manager.Edits.Guarded.{Codec}
use terraform_state_manager.Edits.Recovery.{IsBackedUp}
use terraform_state_manager.Transfers.Transfer.{verified, Transfer, Answer, Setting}

module _ {B : Type 0} (store : Store B) where
  module _ (codec : Codec) (t : Setting) (raw : Bytes) where
    abbrev s : Bytes
    s = t.source.source_id

    abbrev k : Bytes
    k = t.source.key

    abbrev s2 : Bytes
    s2 = t.target.source_id

    abbrev k2 : Bytes
    k2 = t.target.key

    -- If the row says that the source was emptied, then the target holds the state that was read, it
    -- was verified, and a backup of the source holds it too.
    unfoldable pub IsMoved : Transfer → World B → Type 0
    unfolding IsBackedUp
    IsMoved r v =
        r.decommissioned ≡ true
        → (store.content s2 k2 v.backend ≡ some raw)
          × IsBackedUp s k raw v
          × (r.verification ≡ some verified)

  -- If the row says that the source was emptied, then the target holds what the source held before,
  -- its parity was verified, and a backup of the source holds it too.
  unfoldable pub IsTruthful : Setting → World B → World B × Answer → Type 0
  unfolding IsBackedUp
  IsTruthful t w run =
      (r : Transfer)
      → run.1.row ≡ some r
      → r.decommissioned ≡ true
      → (raw : Bytes) × (store.content t.source.source_id t.source.key w.backend ≡ some raw)
        × (store.content t.target.source_id t.target.key run.0.backend ≡ some raw)
        × IsBackedUp t.source.source_id t.source.key raw run.0
        × (r.verification ≡ some verified)
