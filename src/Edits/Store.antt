-- ===== src/Edits/Store.antt =====
-- statesource.go: the connectors of all sources, over the state of their backends; a location is a
-- source and a key of it. Read reports a state or an error. Several locations may name one object: an
-- HTTP source ignores the key, a local one cleans it, and two sources may have one bucket.
use terraform_state_manager.Prelude.{Bool, true, Option, none, some, ◌≡◌, ◌⊎◌, Bytes}

pub data Reply : Type 0 where
  found : Bytes → Reply
  missing broken : Reply

pub data Deletion : Type 0 where
  deleted absent stuck : Deletion

-- The operations, the object that a location names, the state that a backend holds there, and what
-- the operations promise. A write or a delete leaves the other objects as they are, and one that
-- fails promises nothing on its own.
pub record Store (B : Type 0) : Type 0 where
  pub read : Bytes → Bytes → B → Reply × B
  pub write : Bytes → Bytes → Bytes → B → Bool × B
  pub delete : Bytes → Bytes → B → Deletion × B
  pub is_locker : Bytes → Bool
  pub lock : Bytes → Bytes → B → Option Bytes × B
  pub unlock : Bytes → Bytes → Bytes → B → B
  pub place : Bytes → Bytes → Bytes × Bytes
  pub content : Bytes → Bytes → B → Option Bytes
  pub content_of_place :
      (s k s2 k2 : Bytes) (b : B) → place s k ≡ place s2 k2 → content s k b ≡ content s2 k2 b
  pub read_same : (s k s2 k2 : Bytes) (b : B) → content s2 k2 (read s k b).1 ≡ content s2 k2 b
  pub read_found : (s k d : Bytes) (b : B) → (read s k b).0 ≡ found d → content s k b ≡ some d
  pub read_missing : (s k : Bytes) (b : B) → (read s k b).0 ≡ missing → content s k b ≡ none
  pub lock_same : (s k s2 k2 : Bytes) (b : B) → content s2 k2 (lock s k b).1 ≡ content s2 k2 b
  pub unlock_same : (s k i s2 k2 : Bytes) (b : B) → content s2 k2 (unlock s k i b) ≡ content s2 k2 b
  pub write_there :
      (s k d : Bytes) (b : B) → (write s k d b).0 ≡ true → content s k (write s k d b).1 ≡ some d
  pub write_elsewhere :
      (s k d s2 k2 : Bytes) (b : B)
      → (place s k ≡ place s2 k2) ⊎ (content s2 k2 (write s k d b).1 ≡ content s2 k2 b)
  pub delete_there :
      (s k : Bytes) (b : B) → (delete s k b).0 ≡ deleted → content s k (delete s k b).1 ≡ none
  pub delete_elsewhere :
      (s k s2 k2 : Bytes) (b : B)
      → (place s k ≡ place s2 k2) ⊎ (content s2 k2 (delete s k b).1 ≡ content s2 k2 b)
