-- ===== src/Samples/Listing.antt =====
-- The listing of the samples (infrastructure/persistence/review_memory.py).
use vehicle_intelligence.Prelude.{
  ℕ, Str, ◌==◌, leb, ltb, values, Dict, select, Option, none, some, Bool, true, false, ◌&&◌,
}
use vehicle_intelligence.Persistence.Order.{Key}
use vehicle_intelligence.Persistence.Pages.{Page, list_page}
use vehicle_intelligence.Samples.{
  DatasetSample, DatasetSampleStatus, ready, exporting, exported, export_failed, DatasetSampleType,
  plate_ocr, DatasetSampleReason, human_correction, human_confirmation, key_of,
}

pub record DatasetSampleQuery : Type 0 where
  pub limit : ℕ
  pub cursor : Option Key
  pub sample_type : Option DatasetSampleType
  pub status : Option DatasetSampleStatus
  pub reason : Option DatasetSampleReason
  pub source_event_id : Option Str
  pub from_time : Option ℕ
  pub to_time : Option ℕ

abbrev pub is_status : Option DatasetSampleStatus → DatasetSampleStatus → Bool
is_status none status = true
is_status (some ready) ready = true
is_status (some exporting) exporting = true
is_status (some exported) exported = true
is_status (some export_failed) export_failed = true
is_status (some _) _ = false

-- there is one type
abbrev pub is_type : Option DatasetSampleType → DatasetSampleType → Bool
is_type none sample_type = true
is_type (some plate_ocr) plate_ocr = true

abbrev pub is_reason : Option DatasetSampleReason → DatasetSampleReason → Bool
is_reason none reason = true
is_reason (some human_correction) human_correction = true
is_reason (some human_confirmation) human_confirmation = true
is_reason (some _) _ = false

abbrev pub is_source : Option Str → Str → Bool
is_source none id = true
is_source (some wanted) id = id == wanted

abbrev pub is_from : Option ℕ → ℕ → Bool
is_from none time = true
is_from (some from_time) time = leb from_time time

-- the end of the time window is not in it
abbrev pub is_until : Option ℕ → ℕ → Bool
is_until none time = true
is_until (some to_time) time = ltb time to_time

module _ {X : Type 0} where
  unfoldable pub matches : DatasetSample X → DatasetSampleQuery → Bool
  matches sample query =
      is_type query.sample_type sample.sample_type
      && is_status query.status sample.status
      && is_reason query.reason sample.reason
      && is_source query.source_event_id sample.source_event_id
      && is_from query.from_time sample.reviewed_at
      && is_until query.to_time sample.reviewed_at

  unfoldable pub list : Dict (DatasetSample X) → DatasetSampleQuery → Page (DatasetSample X)
  list samples query =
      list_page key_of query.limit query.cursor (select (λ s. matches s query) (values samples))
