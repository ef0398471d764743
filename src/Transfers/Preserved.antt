-- ===== src/Transfers/Preserved.antt =====
-- transfer.go: what a transfer leaves recoverable.
use terraform_state_manager.Prelude.{true, some, ◌≡◌, ◌≢◌, sym, ◌∙◌, Bytes, inl, inr}
use terraform_state_manager.Edits.Store.{Store}
use terraform_state_manager.Edits.World.{World}
use terraform_state_manager.Edits.Guarded.{Codec}
use terraform_state_manager.Edits.Recovery.{IsRecoverable}
use terraform_state_manager.Transfers.Transfer.{Transfer, Setting}

module _ {B : Type 0} (store : Store B) where
  -- Of every object but the one that a location names.
  unfoldable pub KeepsBut : Bytes → Bytes → World B → World B → Type 0
  unfolding IsRecoverable
  KeepsBut s0 k0 w v =
      (s k d : Bytes)
      → store.place s0 k0 ≢ store.place s k
      → IsRecoverable store s k d w
      → IsRecoverable store s k d v

  module _ (codec : Codec) (t : Setting) where
    abbrev s : Bytes
    s = t.source.source_id

    abbrev k : Bytes
    k = t.source.key

    abbrev s2 : Bytes
    s2 = t.target.source_id

    abbrev k2 : Bytes
    k2 = t.target.key

    -- The source still holds what was read from it, once the target is written: also when the two are
    -- one object.
    pub written_source :
        (raw : Bytes) (w : World B)
        → store.content s k w.backend ≡ some raw
        → (store.write s2 k2 raw w.backend).0 ≡ true
        → store.content s k (store.write s2 k2 raw w.backend).1 ≡ some raw
    written_source raw w h written = elim (store.write_elsewhere s2 k2 raw s k w.backend) [
      | inl named ↦
          sym (store.content_of_place s2 k2 s k (store.write s2 k2 raw w.backend).1 named)
          ∙ store.write_there s2 k2 raw w.backend written
      | inr kept ↦ kept ∙ h
    ]
