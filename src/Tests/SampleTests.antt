-- ===== src/Tests/SampleTests.antt =====
-- Witnesses for the samples and the watchlists.
use vehicle_intelligence.Prelude.{
  ℕ, ◌≡◌, ◌≤◌, refl, arith, codes, Str, ◌==◌, strip, is_empty, Dict, get, length, none, some, [],
  ◌∷◌, true, false, ok, List,
}
use vehicle_intelligence.Samples.{
  DatasetSample, plate_ocr, human_correction, ready, exporting, post_init, claim_for_export,
  is_resumed,
}
use vehicle_intelligence.Samples.Claims.{claim-exclusive, IsHeld}
use vehicle_intelligence.Samples.Marks.{
  mark_exported, mark_each, exported_mark, mark_exported-keeps,
}
use vehicle_intelligence.Policy.Services.{update_built, update_built_lem, replacement}
use vehicle_intelligence.Policy.Watchlists.{
  WatchlistEntry, WatchlistUpdate, vip, blacklist, entry_fields, updated_entry,
}
use vehicle_intelligence.Policy.Watchlists

abbrev ready_sample : DatasetSample ℕ
ready_sample = record {
  id = codes "s1";
  status = ready;
  source_event_id = codes "e1";
  image_key = codes "i1";
  sample_type = plate_ocr;
  prediction = 0;
  reason = human_correction;
  label = codes "30A12345";
  review_revision = 1;
  reviewed_by = codes "u";
  reviewer_display_name = codes "User";
  reviewed_at = 5;
  created_at = 6;
  export_id = none;
  export_attempts = 0;
  export_claimed_at = none;
  exported_at = none;
  export_manifest_sha256 = none;
  export_error_code = none;
  schema_version = 2;
}

abbrev stored_samples : Dict (DatasetSample ℕ)
stored_samples =
    (codes "s1", ready_sample)
    ∷ (
      codes "s2",
      record ready_sample {
        id = codes "s2";
        status = exporting;
        export_id = some (codes "other");
        export_claimed_at = some 90;
      },
    )
    ∷ []

sample-valid : post_init ready_sample ≡ ok ready_sample
unfolding post_init strip
sample-valid = refl

other-valid :
    post_init (record ready_sample {
      id = codes "s2";
      status = exporting;
      export_id = some (codes "other");
      export_claimed_at = some 90;
    })
    ≡ ok (record ready_sample {
      id = codes "s2";
      status = exporting;
      export_id = some (codes "other");
      export_claimed_at = some 90;
    })
unfolding post_init strip
other-valid = refl

export-named : is_empty (strip (codes "x1")) ≡ false
unfolding strip
export-named = refl

claim-exclusive_example :
    (o : List (DatasetSample ℕ) × Dict (DatasetSample ℕ)) × (claim_for_export stored_samples
        (codes "x1")
        10
        100
        80
      ≡ ok o)
    × (length o.0 ≤ 10)
    × ((k : Str) (s : DatasetSample ℕ)
        → get stored_samples k ≡ some s
        → IsHeld 80 s
        → get o.1 k ≡ some s)
unfolding ◌==◌
claim-exclusive_example =
    claim-exclusive stored_samples (codes "x1") 10 100 80 (refl, refl, (refl, refl, tt))
      (sample-valid, (other-valid, tt)) export-named (omega arith) (omega arith)

abbrev stored_entry : WatchlistEntry ℕ
stored_entry = record {
  id = codes "w1";
  plate = codes "30A12345";
  list_type = vip;
  enabled = true;
  created_at = 1;
  updated_at = 1;
  valid_from = none;
  valid_until = none;
  metadata = 0;
  schema_version = 1;
  revision = 1;
}

abbrev next_entry : WatchlistEntry ℕ
next_entry = record stored_entry { list_type = blacklist; updated_at = 7; revision = 2 }

abbrev change : WatchlistUpdate ℕ
change = record {
  revision = 1;
  plate = codes "30A12345";
  list_type = blacklist;
  enabled = true;
  valid_from = none;
  valid_until = none;
  metadata = 0;
}

abbrev stored_entries : Dict (WatchlistEntry ℕ)
stored_entries = (codes "w1", stored_entry) ∷ []

entry-found : get stored_entries (codes "w1") ≡ some stored_entry
unfolding ◌==◌
entry-found = refl

entry-built : updated_entry (λ plate. some plate) change 7 stored_entry ≡ ok next_entry
unfolding updated_entry Watchlists.post_init strip
entry-built = refl

update_built_lem_example :
    update_built entry_fields stored_entries stored_entries
      (codes "w1")
      1
      (updated_entry (λ plate. some plate) change 7)
    ≡ replacement entry_fields stored_entries
        (codes "w1")
        1
        1
        next_entry
        (get stored_entries (codes "w1"))
update_built_lem_example =
    update_built_lem entry_fields stored_entries stored_entries (codes "w1") 1
      (updated_entry (λ plate. some plate) change 7) stored_entry next_entry entry-found entry-built
      refl refl

abbrev done_samples : Dict (DatasetSample ℕ)
done_samples = (codes "s1", ready_sample) ∷ []

nothing-marked :
    mark_exported done_samples (codes "s1" ∷ codes "s1" ∷ []) (codes "x1") (codes "h") 9
    ≡ ok (0, done_samples)
unfolding ◌==◌ mark_exported mark_each exported_mark
nothing-marked = refl

ready_found : get done_samples (codes "s1") ≡ some ready_sample
unfolding ◌==◌
ready_found = refl

ready_unclaimed : is_resumed (codes "x1") ready_sample ≡ false
unfolding is_resumed
ready_unclaimed = refl

mark_exported-keeps_example : get done_samples (codes "s1") ≡ some ready_sample
mark_exported-keeps_example =
    mark_exported-keeps done_samples (codes "s1" ∷ codes "s1" ∷ []) (codes "x1") (codes "h") 9 0
      done_samples (codes "s1") ready_sample ready_found ready_unclaimed nothing-marked
