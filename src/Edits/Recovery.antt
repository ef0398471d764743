-- ===== src/Edits/Recovery.antt =====
-- edit.go: a state that was once current stays current or in a backup.
use terraform_state_manager.Prelude.{
  List, ◌∷◌, Bool, true, false, Option, none, some, ◌≡◌, refl, sym, ◌∙◌, Bytes, arith,
  if◌then◌else◌, ◌&&◌, str_eq, str_eq_refl, any, Result, ok, err, inl, inr, ◌⊎◌, some_inj,
  none_ne_some,
}
use terraform_state_manager.Prelude.Int.{ℤ}
use terraform_state_manager.Locks.Table.{Lock, Held, acquire, release}
use terraform_state_manager.Edits.Store.{Store}
use terraform_state_manager.Edits.World.{
  World, Call, Edit, Backup, is_at, Release, native, row, create_backup, record_edit, acquire_lock,
  native_lock, row_lock, release_lock,
}
use terraform_state_manager.Edits.Guarded.{Response, failed, commit, under_lock}

unfoldable pub holds : Bytes → Bytes → Bytes → Backup → Bool
unfolding is_at
holds s k d b = is_at s k b && str_eq b.bytes d

module _ {B : Type 0} where
  -- A backup of the location holds the state.
  unfoldable pub IsBackedUp : Bytes → Bytes → Bytes → World B → Type 0
  unfolding holds
  IsBackedUp s k d w = any (holds s k d) w.backups ≡ true

  module _ (store : Store B) where
    -- The state is the current one of its location, or in a backup of a location that names the same
    -- object.
    unfoldable pub IsRecoverable : Bytes → Bytes → Bytes → World B → Type 0
    unfolding IsBackedUp
    IsRecoverable s k d w =
        (store.content s k w.backend ≡ some d)
        ⊎ ((s2 : Bytes) × (k2 : Bytes) × (store.place s2 k2 ≡ store.place s k)
            × IsBackedUp s2 k2 d w)

    unfoldable pub Keeps : World B → World B → Type 0
    unfolding IsRecoverable
    Keeps w w' = (s k d : Bytes) → IsRecoverable s k d w → IsRecoverable s k d w'

    -- The current state of the location, if there is one, is in a backup.
    unfoldable pub IsCovered : Bytes → Bytes → World B → Type 0
    unfolding IsBackedUp
    IsCovered s k w = (d : Bytes) → store.content s k w.backend ≡ some d → IsBackedUp s k d w

    pub Keeps-refl : (w : World B) → Keeps w w
    unfolding Keeps
    Keeps-refl w s k d h = h

    pub Keeps-trans : (w v u : World B) → Keeps w v → Keeps v u → Keeps w u
    unfolding Keeps
    Keeps-trans w v u h g s k d e = g s k d (h s k d e)

    -- A change of the backend that no content shows.
    pub Keeps-same :
        (w : World B) (b : B)
        → ((s k : Bytes) → store.content s k b ≡ store.content s k w.backend)
        → Keeps w (record w { backend = b })
    unfolding Keeps IsRecoverable IsBackedUp
    Keeps-same w b same s k d (inl e) = inl (same s k ∙ e)
    Keeps-same w b same s k d (inr e) = inr e

    pub record_edit-Keeps : (call : Call) (e : Edit) (w : World B) → Keeps w (record_edit call e w)
    unfolding Keeps IsRecoverable IsBackedUp record_edit
    record_edit-Keeps call e w s k d h = ground (arith, h)

    pub create_backup-Keeps :
        (call : Call) (s k d : Bytes) (serial : Option ℤ) (w : World B)
        → Keeps w (create_backup call s k d serial w)
    unfolding Keeps IsRecoverable IsBackedUp create_backup
    create_backup-Keeps call s k d serial w s2 k2 d2 (inl e) = inl e
    create_backup-Keeps call s k d serial w s2 k2 d2 (inr (s3, k3, same, e)) =
        inr (s3, k3, same, ground (arith, e))

    pub create_backup-IsCovered :
        (call : Call) (s k d : Bytes) (serial : Option ℤ) (w : World B)
        → store.content s k w.backend ≡ some d
        → IsCovered s k (create_backup call s k d serial w)
    unfolding IsCovered IsBackedUp create_backup holds is_at
    create_backup-IsCovered call s k d serial w h d2 e =
        rw (sym (some_inj (sym h ∙ e)))
          (ground (arith, str_eq_refl s, str_eq_refl k, str_eq_refl d))

    pub missing-IsCovered :
        (s k : Bytes) (w : World B) → store.content s k w.backend ≡ none → IsCovered s k w
    unfolding IsCovered
    missing-IsCovered s k w h d e = absurd (none_ne_some (sym h ∙ e))

    -- A change of one object whose state is in a backup.
    pub covered-Keeps :
        (s k : Bytes) (w : World B) (b : B)
        → IsCovered s k w
        → ((s2 k2 : Bytes)
            → (store.place s k ≡ store.place s2 k2)
              ⊎ (store.content s2 k2 b ≡ store.content s2 k2 w.backend))
        → Keeps w (record w { backend = b })
    unfolding Keeps IsRecoverable IsCovered IsBackedUp
    covered-Keeps s k w b covered elsewhere s2 k2 d (inr e) = inr e
    covered-Keeps s k w b covered elsewhere s2 k2 d (inl e) = elim (elsewhere s2 k2) [
      | inl named ↦
          inr (s, k, named, covered d (store.content_of_place s k s2 k2 w.backend named ∙ e))
      | inr same ↦ inl (same ∙ e)
    ]

    pub if_Keeps :
        (w : World B) (test : Bool) (x y : World B × Response)
        → Keeps w x.0
        → Keeps w y.0
        → Keeps w (if test then x else y).0
    if_Keeps w true x y hx hy = hx
    if_Keeps w false x y hx hy = hy

    pub commit-Keeps :
        (call : Call) (s k d : Bytes) (e : Edit) (answer : Response) (w : World B)
        → IsCovered s k w
        → Keeps w (commit store call s k d e answer w).0
    unfolding commit record_edit
    commit-Keeps call s k d e answer w covered =
        let next : World B = record w { backend = (store.write s k d w.backend).1 } in
        let first =
          covered-Keeps s k w next.backend covered
            (λ s2 k2. store.write_elsewhere s k d s2 k2 w.backend) in
        if_Keeps w (store.write s k d w.backend).0 _ _
          (Keeps-trans w next _ first (record_edit-Keeps call e next))
          (Keeps-trans w next _ first
            (record_edit-Keeps call (record e { outcome = failed; detail = call.error_text }) next))

    -- Worlds with the same states and the same backups.
    unfoldable pub IsSame : World B → World B → Type 0
    IsSame w v =
        ((s k : Bytes) → store.content s k v.backend ≡ store.content s k w.backend)
        × (v.backups ≡ w.backups)

    pub same-Keeps : (w v : World B) → IsSame w v → Keeps w v
    unfolding IsSame Keeps IsRecoverable IsBackedUp
    same-Keeps w v (same, eq) s k d (inl e) = inl (same s k ∙ e)
    same-Keeps w v (same, eq) s k d (inr (s2, k2, named, e)) = inr (s2, k2, named, rw eq e)

    pub IsSame-refl : (w : World B) → IsSame w w
    unfolding IsSame
    IsSame-refl w = (λ s k. refl, refl)

    unless_IsSame :
        (w : World B) (test : Bool) (v : World B) → IsSame w v → IsSame w (if test then w else v)
    unless_IsSame w true v h = IsSame-refl w
    unless_IsSame w false v h = h

    pub IsSame-trans : (w v u : World B) → IsSame w v → IsSame v u → IsSame w u
    unfolding IsSame
    IsSame-trans w v u (same, kept) (same2, kept2) = (λ s k. same2 s k ∙ same s k, kept2 ∙ kept)

    pub record_edit-IsSame :
        (call : Call) (e : Edit) (w : World B) → IsSame w (record_edit call e w)
    unfolding record_edit
    record_edit-IsSame call e w =
        unless_IsSame w call.record_fails (record w { edits = e ∷ w.edits })
          (unfold IsSame in (λ s k. refl, refl))

    either_lock-IsSame :
        (w : World B) (test fails : Bool) (x y : Option Release × World B)
        → IsSame w x.1
        → IsSame w y.1
        → IsSame w (if test then x else if fails then (none, w) else y).1
    either_lock-IsSame w true fails x y hx hy = hx
    either_lock-IsSame w false true x y hx hy = IsSame-refl w
    either_lock-IsSame w false false x y hx hy = hy

    native_lock-IsSame :
        (id : Option Bytes) (v w : World B) → IsSame w v → IsSame w (native_lock id v).1
    unfolding native_lock
    native_lock-IsSame none v w h = h
    native_lock-IsSame (some id) v w h = h

    row_lock-IsSame :
        (call : Call) (taken : Result Held (List Lock)) (w : World B)
        → IsSame w (row_lock call taken w).1
    unfolding row_lock IsSame
    row_lock-IsSame call (err held) w = (λ s k. refl, refl)
    row_lock-IsSame call (ok locks) w = (λ s k. refl, refl)

    pub acquire_lock-IsSame :
        (call : Call) (s k : Bytes) (w : World B) → IsSame w (acquire_lock store call s k w).1
    unfolding acquire_lock
    acquire_lock-IsSame call s k w =
        let locked : World B = record w { backend = (store.lock s k w.backend).1 } in
        either_lock-IsSame w (store.is_locker s) call.lock_fails _ _
          (native_lock-IsSame (store.lock s k w.backend).0 locked w
            (unfold IsSame in (λ s2 k2. store.lock_same s k s2 k2 w.backend, refl)))
          (row_lock-IsSame call (acquire call.now call.lock_id s k call.actor w.locks) w)

    pub release_lock-IsSame :
        (call : Call) (s k : Bytes) (r : Release) (w : World B)
        → IsSame w (release_lock store call s k r w)
    unfolding release_lock
    release_lock-IsSame call s k (native id) w =
        unfold IsSame in (λ s2 k2. store.unlock_same s k id s2 k2 w.backend, refl)
    release_lock-IsSame call s k (row id) w =
        unless_IsSame w call.release_fails (record w { locks = release s k id w.locks })
          (unfold IsSame in (λ s2 k2. refl, refl))

    pub acquire_lock-Keeps :
        (call : Call) (s k : Bytes) (w : World B) → Keeps w (acquire_lock store call s k w).1
    acquire_lock-Keeps call s k w = same-Keeps w _ (acquire_lock-IsSame call s k w)

    pub release_lock-Keeps :
        (call : Call) (s k : Bytes) (r : Release) (w : World B)
        → Keeps w (release_lock store call s k r w)
    release_lock-Keeps call s k r w = same-Keeps w _ (release_lock-IsSame call s k r w)

    -- With the lock taken before and released after.
    pub under_lock-Keeps :
        (call : Call) (s k : Bytes) (body : World B → World B × Response)
        (taken : Option Release × World B) (w : World B)
        → ((v : World B) → Keeps v (body v).0)
        → Keeps w taken.1
        → Keeps w (under_lock store call s k body taken).0
    unfolding under_lock
    under_lock-Keeps call s k body (none, v) w keeps h = h
    under_lock-Keeps call s k body (some r, v) w keeps h =
        Keeps-trans w v _ h
          (Keeps-trans v (body v).0 _ (keeps v) (release_lock-Keeps call s k r (body v).0))
