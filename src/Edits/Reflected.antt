-- ===== src/Edits/Reflected.antt =====
-- edit.go: EditDiff behind EditState.
use terraform_state_manager.Prelude.{
  List, [], ◌∷◌, Bool, true, false, Option, none, some, Bytes, not, str_eq_refl, ◌≡◌, ◌≢◌, refl,
  sym, ◌∙◌, select, arith, ok, err, some_inj, none_ne_some,
}
use terraform_state_manager.Prelude.Int.{ℤ}
use terraform_state_manager.Json.{Json}
use terraform_state_manager.Analyzer.Labels.{is_blank}
use terraform_state_manager.Analyzer.Legacy.{State}
use terraform_state_manager.Analyzer.Listing.{ResourceSummary, list_resources}
use terraform_state_manager.Analyzer.Analyze.{Analysis, analyze}
use terraform_state_manager.Edits.Store.{Store, Reply, found, missing, broken}
use terraform_state_manager.Edits.World.{World, Call}
use terraform_state_manager.Edits.Guarded.{Codec, done, analysis, serial_of, edit_state}
use terraform_state_manager.Edits.Outcome.{IsReplaced, checked-done, edit_state-done}
use terraform_state_manager.Edits.Diff.{
  Preview, resource_key, resources_of, diff_resources, preview_found, preview_read, preview,
  edit_diff_listed, edit_diff,
}
use terraform_state_manager.Edits.Previews.{has_key, diff_resources-buckets}

covered :
    (ys xs : List ResourceSummary)
    → ((k : Bytes) → has_key k ys ≡ true → has_key k xs ≡ true)
    → select (λ p. not (has_key (resource_key p) xs)) ys ≡ []
covered [] xs h = refl
covered (y ∷ ys) xs h =
    rw (h (resource_key y) (rw (str_eq_refl (resource_key y)) refl))
      (covered ys xs (λ k e. h k (ground (arith, e))))

-- A list that is compared with itself adds and removes nothing.
diff_resources_self :
    (sprint : List Json → Bytes) (rs : List ResourceSummary)
    → ((diff_resources sprint rs rs).added ≡ []) × ((diff_resources sprint rs rs).removed ≡ [])
diff_resources_self sprint rs =
    let (a, c, r) = diff_resources-buckets sprint rs rs in
    let none_left = covered rs rs (λ k e. e) in (a ∙ none_left, r ∙ none_left)

-- A preview of what is there already.
unfoldable pub IsEmptyPreview : Preview → Type 0
IsEmptyPreview pv =
    (pv.diff.added ≡ []) × (pv.diff.removed ≡ []) × (pv.proposed_serial ≡ pv.current_serial)

err_ne_ok {ℓ κ} : {E : Type ℓ} {A : Type κ} {e : E} {a : A} → err e ≡ ok a → ⊥
err_ne_ok h = cc

module _ (sprint : List Json → Bytes) (index_key : Json → Option Json) (codec : Codec) where
  listed :
      (state : Option State) (a : Analysis)
      → analyze state ≡ ok a
      → (rs : List ResourceSummary) × (list_resources index_key state ≡ ok rs)
  unfolding analyze list_resources
  listed none a h = absurd (err_ne_ok h)
  listed (some state) a h = (_, refl)

  module _ {B : Type 0} (store : Store B) where
    preview_read-same :
        (s k bytes : Bytes) (b : B) (reply : Reply) (rs : List ResourceSummary)
        → store.content s k b ≡ some bytes
        → resources_of sprint index_key codec bytes ≡ ok rs
        → (store.read s k b).0 ≡ reply
        → reply ≢ broken
        → (pv : Preview) × (preview_read sprint index_key codec k
              (serial_of (analysis codec bytes))
              rs
              reply
            ≡ ok pv)
          × IsEmptyPreview pv
    unfolding preview_read preview_found IsEmptyPreview
    preview_read-same s k bytes b broken rs held reads replied fine = absurd (fine refl)
    preview_read-same s k bytes b missing rs held reads replied fine =
        absurd (none_ne_some (sym (store.read_missing s k b replied) ∙ held))
    preview_read-same s k bytes b (found cur) rs held reads replied fine =
        let same = some_inj (sym (store.read_found s k cur b replied) ∙ held) in
        let (a, r) = diff_resources_self sprint rs in rw same rw reads (_, refl, (a, r, refl))

    key_given :
        (call : Call) (force : Bool) (s k bytes : Bytes) (w : World B) (id : Option Bytes)
        (serial : Option ℤ)
        → (edit_state store codec call force k (some bytes) (ok s) w).1 ≡ done id serial
        → is_blank k ≡ false
    unfolding edit_state
    key_given call force s k bytes w id serial h =
        checked-done store (λ _. is_blank k ≡ false) w 400 (is_blank k) _ (λ named _. named) h

    listed_diff :
        (s k bytes : Bytes) (a : Analysis) (v : World B)
        → is_blank k ≡ false
        → analysis codec bytes ≡ ok a
        → store.content s k v.backend ≡ some bytes
        → (store.read s k v.backend).0 ≢ broken
        → (pv : Preview) × ((edit_diff sprint index_key codec store k (some bytes) (ok s) v).1
            ≡ ok pv)
          × IsEmptyPreview pv
    unfolding edit_diff edit_diff_listed preview
    listed_diff s k bytes a v named fits held fine =
        let (rs, reads) = listed (codec.state_of bytes) a fits in
        rw (named, reads) (preview_read-same s k bytes v.backend _ rs held reads refl fine)

    -- If EditState answers 200 and the state can be read afterwards, EditDiff of the same body answers
    -- 200: it would add and remove nothing, and the two serials agree.
    pub edit_diff-edit_state :
        (call : Call) (force : Bool) (s k bytes : Bytes) (w : World B) (id : Option Bytes)
        (serial : Option ℤ)
        → (edit_state store codec call force k (some bytes) (ok s) w).1 ≡ done id serial
        → (store.read s k (edit_state store codec call force k (some bytes) (ok s) w).0.backend).0
          ≢ broken
        → (pv : Preview) × ((edit_diff sprint index_key codec store k
              (some bytes)
              (ok s)
              (edit_state store codec call force k (some bytes) (ok s) w).0).1
            ≡ ok pv)
          × IsEmptyPreview pv
    edit_diff-edit_state call force s k bytes w id serial h fine =
        let (a, fits, replaced) = edit_state-done store codec call force s k bytes w id serial h in
        let v = (edit_state store codec call force k (some bytes) (ok s) w).0 in
        let there : store.content s k v.backend ≡ some bytes = unfold IsReplaced in replaced.0 in
        listed_diff s k bytes a v (key_given call force s k bytes w id serial h) fits there fine
