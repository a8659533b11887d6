-- ===== src/Policy/Services.antt =====
-- What WatchlistService and RuleService (application/policies.py) share: create, and an update that
-- reads a record, checks its revision, builds the next one and replaces the one it has read.
use vehicle_intelligence.Prelude.{
  ℕ, ◌+◌, ◌≡◌, refl, sym, arith, Str, Dict, get, put, eqb, if◌then◌else◌, Option, none, some, Bool,
  true, false, ◌&&◌, Result, ok, err, ◌>>=◌, Done, done, policy_conflict, policy_not_found,
  Bool-cases, inl, inr, put-cases, pop-kept, contains,
}
use vehicle_intelligence.Policy.Versioned.{IsVersioned, create, replace, delete, has_revision}
use mathlib.Core.Path.{subst}

module _ {V : Type 0} (fields : IsVersioned V) where
  open fields use {id_of, revision_of}

  -- a write that the repository refuses is a conflict
  abbrev pub stored : V → Bool × Dict V → Result (V × Dict V)
  stored entry (true, entries) = ok (entry, entries)
  stored entry (false, entries) = err policy_conflict

  unfoldable pub create_built : Dict V → Result V → Result (V × Dict V)
  create_built entries built = do entry ← built; stored entry (create fields entries entry)

  -- `_required`
  abbrev pub required : Option V → Result V
  required none = err policy_not_found
  required (some entry) = ok entry

  abbrev pub checked_revision : V → ℕ → Result Done
  checked_revision current revision =
      if eqb (revision_of current) revision then ok done else err policy_conflict

  -- `seen` is the repository when the record is read, `entries` when it is written
  unfoldable pub update_built : Dict V → Dict V → Str → ℕ → (V → Result V) → Result (V × Dict V)
  update_built seen entries entry_id revision build = do
    current ← required (get seen entry_id)
    _ ← checked_revision current revision
    updated ← build current
    outcome ← replace fields entries updated (revision_of current)
    stored updated outcome

  unfoldable pub delete_entry : Dict V → Str → Result (Dict V)
  delete_entry entries entry_id =
      let outcome = delete fields entries entry_id in
      if outcome.0 then ok outcome.1 else err policy_not_found

  -- What an update stores in place of `kept`, which stands under the id when it is written: revision
  -- is the caller's, and read that of the record it has read.
  abbrev pub replacement : Dict V → Str → (revision read : ℕ) → V → Option V → Result (V × Dict V)
  replacement entries entry_id revision read updated none = err policy_conflict
  replacement entries entry_id revision read updated (some kept) =
      if eqb read revision && eqb (revision_of kept) revision
      then ok (updated, put entries entry_id updated)
      else err policy_conflict

  eqb_refl : (n : ℕ) → eqb n n ≡ true
  eqb_refl n = ground arith

  replacement_refused :
      (entries : Dict V) (entry_id : Str) (revision read : ℕ) (updated : V) (kept : Option V)
      → eqb read revision ≡ false
      → replacement entries entry_id revision read updated kept ≡ err policy_conflict
  replacement_refused entries entry_id revision read updated none h = refl
  replacement_refused entries entry_id revision read updated (some kept) h = rw h refl

  write_lem :
      (entries : Dict V) (entry_id : Str) (revision read : ℕ) (updated : V) (kept : Option V)
      → eqb read revision ≡ true
      → ((if has_revision fields kept read
            then ok (true, put entries entry_id updated)
            else ok (false, entries))
          >>= (λ outcome. stored updated outcome))
        ≡ replacement entries entry_id revision read updated kept
  unfolding has_revision
  write_lem entries entry_id revision read updated none h = refl
  write_lem entries entry_id revision read updated (some kept) h =
      let same : read ≡ revision = ground (arith, h) in
      rw (same, eqb_refl revision)
        (elim (Bool-cases (eqb (revision_of kept) revision)) [
          | inl current ↦ rw current refl
          | inr changed ↦ rw changed refl
        ])

  -- The update of a record that is read and whose successor is built: it is stored, in place of the
  -- record of its id alone, exactly if the caller's revision is that of the record, and the store
  -- holds a record of that revision under the id when it is written. Otherwise it is a conflict.
  pub update_built_lem :
      (seen entries : Dict V) (entry_id : Str) (revision : ℕ) (build : V → Result V)
      (current updated : V)
      → get seen entry_id ≡ some current
      → build current ≡ ok updated
      → id_of updated ≡ entry_id
      → revision_of updated ≡ revision_of current + 1
      → update_built seen entries entry_id revision build
        ≡ replacement entries entry_id revision (revision_of current) updated (get entries entry_id)
  unfolding update_built replace
  update_built_lem seen entries entry_id revision build current updated found built same next =
      elim (Bool-cases (eqb (revision_of current) revision)) [
        | inr stale ↦
            rw (found, stale)
              (sym (
                replacement_refused entries entry_id revision (revision_of current) updated
                  (get entries entry_id) stale))
        | inl agreed ↦
            rw (found, agreed, built, same, next, eqb_refl (revision_of current + 1))
              (write_lem entries entry_id revision (revision_of current) updated
                (get entries entry_id) agreed)
      ]

  -- the records after a call, also if it raises
  abbrev pub after_write : Dict V → Result (V × Dict V) → Dict V
  after_write entries (ok (entry, entries')) = entries'
  after_write entries (err e) = entries

  abbrev pub after_delete : Dict V → Result (Dict V) → Dict V
  after_delete entries (ok entries') = entries'
  after_delete entries (err e) = entries

  module _ {κ} (P : V → Type κ) where
    abbrev pub AllStored : Dict V → Type κ
    AllStored entries = (k : Str) (v : V) → get entries k ≡ some v → P v

    put-AllStored :
        (entries : Dict V) (k : Str) (v : V) → AllStored entries → P v → AllStored (put entries k v)
    put-AllStored entries k v h good j w found = elim (put-cases entries k v j w found) [
      | inl (at, is_new) ↦ subst P is_new good
      | inr old ↦ h j w old
    ]

    create_written :
        (entries : Dict V) (v : V)
        → AllStored entries
        → P v
        → AllStored (after_write entries (stored v (create fields entries v)))
    unfolding create
    create_written entries v h good = elim (Bool-cases (contains entries (id_of v))) [
      | inl known ↦ rw known h
      | inr fresh ↦ rw fresh (put-AllStored entries (id_of v) v h good)
    ]

    -- What holds of each record that is built holds of each that is stored.
    pub create_built-AllStored :
        (entries : Dict V) (built : Result V)
        → AllStored entries
        → ((v : V) → built ≡ ok v → P v)
        → AllStored (after_write entries (create_built entries built))
    unfolding create_built
    create_built-AllStored entries (err e) h good = h
    create_built-AllStored entries (ok v) h good = create_written entries v h (good v refl)

    replace_written :
        (entries : Dict V) (v : V) (revision : ℕ)
        → AllStored entries
        → P v
        → AllStored (after_write entries (replace fields entries v revision >>= (λ o. stored v o)))
    unfolding replace
    replace_written entries v revision h good =
        elim (Bool-cases (eqb (revision_of v) (revision + 1))) [
          | inr wrong ↦ rw wrong h
          | inl next ↦ elim (Bool-cases (has_revision fields (get entries (id_of v)) revision)) [
            | inr stale ↦ rw (next, stale) h
            | inl current ↦ rw (next, current) (put-AllStored entries (id_of v) v h good)
          ]
        ]

    built_written :
        (entries : Dict V) (built : Result V) (revision : ℕ)
        → AllStored entries
        → ((v : V) → built ≡ ok v → P v)
        → AllStored (
            after_write entries
              (built >>= (λ v. replace fields entries v revision >>= (λ o. stored v o))))
    built_written entries (err e) revision h good = h
    built_written entries (ok v) revision h good =
        replace_written entries v revision h (good v refl)

    read_written :
        (current : Result V) (entries : Dict V) (revision : ℕ) (build : V → Result V)
        → AllStored entries
        → ((c v : V) → build c ≡ ok v → P v)
        → AllStored (
            after_write entries (
              current >>= (λ c. checked_revision c revision >>= (λ _.
                build c
                >>= (λ v. replace fields entries v (revision_of c) >>= (λ o. stored v o))))))
    read_written (err e) entries revision build h good = h
    read_written (ok c) entries revision build h good =
        elim (Bool-cases (eqb (revision_of c) revision)) [
          | inl agreed ↦ rw agreed (built_written entries (build c) (revision_of c) h (good c))
          | inr stale ↦ rw stale h
        ]

    pub update_built-AllStored :
        (seen entries : Dict V) (entry_id : Str) (revision : ℕ) (build : V → Result V)
        → AllStored entries
        → ((c v : V) → build c ≡ ok v → P v)
        → AllStored (after_write entries (update_built seen entries entry_id revision build))
    unfolding update_built
    update_built-AllStored seen entries entry_id revision build h good =
        read_written (required (get seen entry_id)) entries revision build h good

    pub delete-AllStored :
        (entries : Dict V) (entry_id : Str)
        → AllStored entries
        → AllStored (after_delete entries (delete_entry entries entry_id))
    unfolding delete_entry delete
    delete-AllStored entries entry_id h = elim (Bool-cases (contains entries entry_id)) [
      | inl known ↦ rw known (λ k v found. h k v (pop-kept entries entry_id k v found))
      | inr unknown ↦ rw unknown h
    ]
