-- ===== src/Samples/Marks.antt =====
-- mark_exported and mark_export_failed (infrastructure/persistence/review_memory.py): what an export
-- records of the samples that it has claimed.
use vehicle_intelligence.Prelude.{
  ℕ, ◌+◌, ◌≡◌, ◌≢◌, refl, ◌∙◌, arith, Str, ◌==◌, eq_iff, Dict, get, put, get-put, if◌then◌else◌,
  Option, none, some, List, [], ◌∷◌, Bool, true, false, ◌&&◌, ◌||◌, not, Result, ok, err, ◌>>=◌,
  Bool-cases, inl, inr,
}
use mathlib.Core.Path.{subst, sym, ap}
use vehicle_intelligence.Events.Repository.{distinct_ids}
use vehicle_intelligence.Samples.{
  DatasetSample, exported, export_failed, is_exported, is_exporting, is_text, is_resumed, post_init,
}

-- One round of a loop over ids counts the sample, and may store a new one in its place.
pub data Mark (X : Type 0) : Type 0 where
  skip : Mark X
  count : Mark X
  store : Result (DatasetSample X) → Mark X

module _ {X : Type 0} where
  unfoldable pub exported_mark : Str → Str → ℕ → Option (DatasetSample X) → Mark X
  exported_mark export_id manifest_sha256 exported_at none = skip
  exported_mark export_id manifest_sha256 exported_at (some sample) =
      if is_exported sample.status
        && is_text sample.export_id export_id
        && is_text sample.export_manifest_sha256 manifest_sha256
      then count
      else if not (is_exporting sample.status) || not (is_text sample.export_id export_id)
      then skip
      else store (
          post_init (record sample {
            status = exported;
            exported_at = some exported_at;
            export_manifest_sha256 = some manifest_sha256;
            export_error_code = none;
          }))

  unfoldable pub failed_mark : Str → Str → Option (DatasetSample X) → Mark X
  failed_mark export_id error_code none = skip
  failed_mark export_id error_code (some sample) =
      if not (is_exporting sample.status) || not (is_text sample.export_id export_id)
      then skip
      else store (
          post_init (record sample { status = export_failed; export_error_code = some error_code }))

  abbrev pub apply_mark :
      Mark X → Str → ℕ × Dict (DatasetSample X) → Result (ℕ × Dict (DatasetSample X))
  apply_mark skip sample_id (changed, samples) = ok (changed, samples)
  apply_mark count sample_id (changed, samples) = ok (changed + 1, samples)
  apply_mark (store (ok sample)) sample_id (changed, samples) =
      ok (changed + 1, put samples sample_id sample)
  apply_mark (store (err e)) sample_id (changed, samples) = err e

  unfoldable pub mark_each :
      (Option (DatasetSample X) → Mark X)
      → List Str
      → ℕ × Dict (DatasetSample X)
      → Result (ℕ × Dict (DatasetSample X))
  mark_each mark [] state = ok state
  mark_each mark (sample_id ∷ ids) state = do
    next ← apply_mark (mark (get state.1 sample_id)) sample_id state
    mark_each mark ids next

  unfoldable pub mark_exported :
      Dict (DatasetSample X) → List Str → Str → Str → ℕ → Result (ℕ × Dict (DatasetSample X))
  mark_exported samples sample_ids export_id manifest_sha256 exported_at =
      mark_each (exported_mark export_id manifest_sha256 exported_at) (distinct_ids [] sample_ids)
        (0, samples)

  unfoldable pub mark_export_failed :
      Dict (DatasetSample X) → List Str → Str → Str → Result (ℕ × Dict (DatasetSample X))
  mark_export_failed samples sample_ids export_id error_code =
      mark_each (failed_mark export_id error_code) (distinct_ids [] sample_ids) (0, samples)

  -- a mark that stores nothing
  abbrev IsQuiet : Mark X → Type 0
  IsQuiet (store r) = (e : DatasetSample X) → r ≢ ok e
  IsQuiet _ = Unit

  abbrev KeepsAt : Str → DatasetSample X → Result (ℕ × Dict (DatasetSample X)) → Type 0
  KeepsAt k s (err e) = Unit
  KeepsAt k s (ok (changed, samples)) = get samples k ≡ some s

  apply_mark-keeps :
      (mark : Mark X) (sample_id : Str) (changed : ℕ) (samples : Dict (DatasetSample X)) (k : Str)
      (s : DatasetSample X)
      → get samples k ≡ some s
      → (sample_id ≡ k → IsQuiet mark)
      → KeepsAt k s (apply_mark mark sample_id (changed, samples))
  apply_mark-keeps skip sample_id changed samples k s found quiet = found
  apply_mark-keeps count sample_id changed samples k s found quiet = found
  apply_mark-keeps (store (err e)) sample_id changed samples k s found quiet = tt
  apply_mark-keeps (store (ok new)) sample_id changed samples k s found quiet =
      elim (Bool-cases (sample_id == k)) [
        | inl same ↦ absurd (quiet ((eq_iff sample_id k).0 same) new refl)
        | inr other ↦ rw (get-put samples sample_id k new, other) found
      ]

  mark_each-keeps :
      (mark : Option (DatasetSample X) → Mark X) (ids : List Str) (changed : ℕ)
      (samples : Dict (DatasetSample X)) (k : Str) (s : DatasetSample X)
      → get samples k ≡ some s
      → IsQuiet (mark (some s))
      → KeepsAt k s (mark_each mark ids (changed, samples))
  unfolding mark_each
  mark_each-keeps mark [] changed samples k s found quiet = found
  mark_each-keeps mark (sample_id ∷ ids) changed samples k s found quiet =
      after_round (apply_mark (mark (get samples sample_id)) sample_id (changed, samples))
        (apply_mark-keeps (mark (get samples sample_id)) sample_id changed samples k s found
          (λ same. subst (λ o. IsQuiet (mark o)) (sym (ap (get samples) same ∙ found)) quiet))
        (λ changed' samples' kept. mark_each-keeps mark ids changed' samples' k s kept quiet)
    where
      after_round :
          (next : Result (ℕ × Dict (DatasetSample X)))
          → KeepsAt k s next
          → ((changed' : ℕ) (samples' : Dict (DatasetSample X))
              → get samples' k ≡ some s
              → KeepsAt k s (mark_each mark ids (changed', samples')))
          → KeepsAt k s (next >>= (λ state. mark_each mark ids state))
      after_round (err e) kept further = tt
      after_round (ok (changed', samples')) kept further = further changed' samples' kept

  exported_mark-IsQuiet :
      (export_id manifest_sha256 : Str) (exported_at : ℕ) (s : DatasetSample X)
      → is_resumed export_id s ≡ false
      → IsQuiet (exported_mark export_id manifest_sha256 exported_at (some s))
  unfolding exported_mark is_resumed
  exported_mark-IsQuiet export_id manifest_sha256 exported_at s other =
      elim (Bool-cases (
        is_exported s.status
        && is_text s.export_id export_id
        && is_text s.export_manifest_sha256 manifest_sha256)) [
          | inl again ↦ rw again tt
          | inr first ↦ rw (first, not_claimed (is_exporting s.status) _ other) tt
        ]
    where
      not_claimed : (a b : Bool) → (a && b) ≡ false → (not a || not b) ≡ true
      not_claimed a b h = ground arith

  -- A sample that the export has not claimed stays as it is when the export is recorded as done.
  pub mark_exported-keeps :
      (samples : Dict (DatasetSample X)) (sample_ids : List Str) (export_id manifest_sha256 : Str)
      (exported_at changed : ℕ) (result : Dict (DatasetSample X)) (k : Str) (s : DatasetSample X)
      → get samples k ≡ some s
      → is_resumed export_id s ≡ false
      → mark_exported samples sample_ids export_id manifest_sha256 exported_at
        ≡ ok (changed, result)
      → get result k ≡ some s
  unfolding mark_exported
  mark_exported-keeps samples sample_ids export_id manifest_sha256 exported_at changed result k s
        found other returned =
      subst (KeepsAt k s) returned (
        mark_each-keeps (exported_mark export_id manifest_sha256 exported_at)
          (distinct_ids [] sample_ids) 0 samples k s found
          (exported_mark-IsQuiet export_id manifest_sha256 exported_at s other))

  failed_mark-IsQuiet :
      (export_id error_code : Str) (s : DatasetSample X)
      → is_resumed export_id s ≡ false
      → IsQuiet (failed_mark export_id error_code (some s))
  unfolding failed_mark is_resumed
  failed_mark-IsQuiet export_id error_code s other =
      rw (not_claimed (is_exporting s.status) _ other) tt
    where
      not_claimed : (a b : Bool) → (a && b) ≡ false → (not a || not b) ≡ true
      not_claimed a b h = ground arith

  -- A sample that the export has not claimed stays as it is when the export is recorded as failed.
  pub mark_export_failed-keeps :
      (samples : Dict (DatasetSample X)) (sample_ids : List Str) (export_id error_code : Str)
      (changed : ℕ) (result : Dict (DatasetSample X)) (k : Str) (s : DatasetSample X)
      → get samples k ≡ some s
      → is_resumed export_id s ≡ false
      → mark_export_failed samples sample_ids export_id error_code ≡ ok (changed, result)
      → get result k ≡ some s
  unfolding mark_export_failed
  mark_export_failed-keeps samples sample_ids export_id error_code changed result k s found other
        returned =
      subst (KeepsAt k s) returned (
        mark_each-keeps (failed_mark export_id error_code) (distinct_ids [] sample_ids) 0 samples k
          s found (failed_mark-IsQuiet export_id error_code s other))
