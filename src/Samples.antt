-- ===== src/Samples.antt =====
-- Samples of the OCR dataset: domain/review.py and their repository
-- (infrastructure/persistence/review_memory.py). A timestamp is an aware instant, in microseconds;
-- X stands for the prediction, which is only carried.
pub mod Claims
pub mod Marks
pub mod Listing
use vehicle_intelligence.Prelude.{
  ℕ, ◌+◌, ◌-◌, max, Str, ◌==◌, strip, is_empty, Dict, get, put, contains, values, member, eqb, ltb,
  leb, not, any, all, length, select, take, map, ◌++◌, if◌then◌else◌, Option, none, some, List, [],
  ◌∷◌, Bool, true, false, ◌&&◌, ◌||◌, Result, ok, err, ◌>>=◌, value_error,
}
use vehicle_intelligence.Persistence.Order.{Key}
use vehicle_intelligence.Persistence.Sorting.{oldest_first}

pub data DatasetSampleStatus : Type 0 where
  ready exporting exported export_failed : DatasetSampleStatus

pub data DatasetSampleType : Type 0 where
  plate_ocr : DatasetSampleType

pub data DatasetSampleReason : Type 0 where
  human_correction human_confirmation : DatasetSampleReason

pub record DatasetSample (X : Type 0) : Type 0 where
  pub id : Str
  pub status : DatasetSampleStatus
  pub source_event_id : Str
  pub image_key : Str
  pub sample_type : DatasetSampleType
  pub prediction : X
  pub reason : DatasetSampleReason
  pub label : Str
  pub review_revision : ℕ
  pub reviewed_by : Str
  pub reviewer_display_name : Str
  pub reviewed_at : ℕ
  pub created_at : ℕ
  pub export_id : Option Str
  pub export_attempts : ℕ
  pub export_claimed_at : Option ℕ
  pub exported_at : Option ℕ
  pub export_manifest_sha256 : Option Str
  pub export_error_code : Option Str
  pub schema_version : ℕ

abbrev pub is_exporting : DatasetSampleStatus → Bool
is_exporting exporting = true
is_exporting _ = false

abbrev pub is_exported : DatasetSampleStatus → Bool
is_exported exported = true
is_exported _ = false

abbrev pub is_waiting : DatasetSampleStatus → Bool
is_waiting ready = true
is_waiting export_failed = true
is_waiting _ = false

-- `value == wanted` of an optional text
abbrev pub is_text : Option Str → Str → Bool
is_text none wanted = false
is_text (some s) wanted = s == wanted

-- `time is not None and time < limit`
abbrev pub is_older : Option ℕ → ℕ → Bool
is_older none limit = false
is_older (some time) limit = ltb time limit

abbrev pub is_blank : Option Str → Bool
is_blank none = false
is_blank (some s) = is_empty (strip s)

-- a character of "0123456789abcdef"
abbrev pub is_hex : ℕ → Bool
is_hex c = (leb 48 c && leb c 57) || (leb 97 c && leb c 102)

abbrev pub is_bad_hash : Option Str → Bool
is_bad_hash none = false
is_bad_hash (some h) = not (eqb (length h) 64) || not (all is_hex h)

pub record SourceRevision : Type 0 where
  pub event_id : Str
  pub revision : ℕ

abbrev pub has_source : SourceRevision → List SourceRevision → Bool
has_source k [] = false
has_source k (j ∷ rest) =
    let others = has_source k rest in
    if (k.event_id == j.event_id) && eqb k.revision j.revision then true else others

pub record Repository (X : Type 0) : Type 0 where
  pub samples : Dict (DatasetSample X)
  pub source_revisions : List SourceRevision

module _ {X : Type 0} where
  -- DatasetSample.__post_init__
  unfoldable pub post_init : DatasetSample X → Result (DatasetSample X)
  post_init s =
      if any (λ value. is_empty (strip value))
        (s.id ∷ s.source_event_id ∷ s.image_key ∷ s.label ∷ s.reviewed_by ∷ s.reviewer_display_name
          ∷ [])
      then err value_error
      else if ltb s.review_revision 1
      then err value_error
      else if is_blank s.export_id
      then err value_error
      else if is_bad_hash s.export_manifest_sha256
      then err value_error
      else if ltb s.schema_version 1
      then err value_error
      else ok s

  abbrev pub key_of : DatasetSample X → Key
  key_of sample = record { time = sample.created_at; id = sample.id }

  unfoldable pub create : Repository X → DatasetSample X → Bool × Repository X
  create r sample =
      let source : SourceRevision = record {
        event_id = sample.source_event_id;
        revision = sample.review_revision;
      } in
      if contains r.samples sample.id || has_source source r.source_revisions then (false, r) else (
        true,
        record {
          samples = put r.samples sample.id sample;
          source_revisions = source ∷ r.source_revisions;
        },
      )

  -- what an export resumes: its own claims
  unfoldable pub is_resumed : Str → DatasetSample X → Bool
  is_resumed export_id sample = is_exporting sample.status && is_text sample.export_id export_id

  -- what an export may claim: waiting samples, and claims that are stale
  unfoldable pub is_eligible : ℕ → DatasetSample X → Bool
  is_eligible stale_before sample =
      is_waiting sample.status
      || (is_exporting sample.status && is_older sample.export_claimed_at stale_before)

  unfoldable pub claimed : DatasetSample X → Str → ℕ → DatasetSample X
  claimed sample export_id claimed_at = record sample {
    schema_version = max 2 sample.schema_version;
    status = exporting;
    export_id = some export_id;
    export_attempts = sample.export_attempts + 1;
    export_claimed_at = some claimed_at;
    exported_at = none;
    export_manifest_sha256 = none;
    export_error_code = none;
  }

  -- the loop over the eligible samples: the claimed ones, and the samples after it
  unfoldable pub claim_each :
      List (DatasetSample X)
      → Str
      → ℕ
      → Dict (DatasetSample X)
      → Result (List (DatasetSample X) × Dict (DatasetSample X))
  claim_each [] export_id claimed_at samples = ok ([], samples)
  claim_each (sample ∷ rest) export_id claimed_at samples = do
    taken ← post_init (claimed sample export_id claimed_at)
    outcome ← claim_each rest export_id claimed_at (put samples sample.id taken)
    ok (taken ∷ outcome.0, outcome.1)

  unfoldable pub resumed_of : Dict (DatasetSample X) → Str → ℕ → List (DatasetSample X)
  resumed_of samples export_id limit =
      take limit (oldest_first key_of (select (is_resumed export_id) (values samples)))

  unfoldable pub eligible_of :
      Dict (DatasetSample X) → List (DatasetSample X) → ℕ → List (DatasetSample X)
  eligible_of samples selected stale_before = oldest_first key_of (
      select
        (λ sample.
          not (member sample.id (map (λ s. s.id) selected)) && is_eligible stale_before sample)
        (values samples))

  unfoldable pub claim_for_export :
      Dict (DatasetSample X)
      → Str
      → ℕ
      → ℕ
      → ℕ
      → Result (List (DatasetSample X) × Dict (DatasetSample X))
  claim_for_export samples export_id limit claimed_at stale_before =
      if is_empty (strip export_id) || not (leb 1 limit && leb limit 1000)
      then err value_error
      else let selected = resumed_of samples export_id limit in
        do
          outcome ←
              claim_each
                (take (limit - length selected) (eligible_of samples selected stale_before))
                export_id claimed_at samples
          ok (selected ++ outcome.0, outcome.1)
