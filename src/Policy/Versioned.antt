-- ===== src/Policy/Versioned.antt =====
-- What the repositories of versioned records share (infrastructure/persistence/policy_memory.py):
-- a dict by id, and replacement only of the revision that the caller has seen.
use vehicle_intelligence.Prelude.{
  ℕ, ◌+◌, ◌≡◌, refl, Str, ◌==◌, Dict, get, put, pop, contains, get-put, eqb, not, if◌then◌else◌,
  Option, none, some, Bool, true, false, Result, ok, err, value_error, arith, Bool-cases, inl, inr,
  sym, ◌&&◌,
}

-- The two fields that a repository reads of its records.
pub record IsVersioned (V : Type 0) : Type 0 where
  pub id_of : V → Str
  pub revision_of : V → ℕ

module _ {V : Type 0} (fields : IsVersioned V) where
  open fields use {id_of, revision_of}

  unfoldable pub create : Dict V → V → Bool × Dict V
  create entries entry =
      if contains entries (id_of entry)
      then (false, entries)
      else (true, put entries (id_of entry) entry)

  unfoldable pub has_revision : Option V → ℕ → Bool
  has_revision none expected = false
  has_revision (some current) expected = eqb (revision_of current) expected

  unfoldable pub replace : Dict V → V → ℕ → Result (Bool × Dict V)
  replace entries entry expected_revision =
      if not (eqb (revision_of entry) (expected_revision + 1))
      then err value_error
      else if has_revision (get entries (id_of entry)) expected_revision
      then ok (true, put entries (id_of entry) entry)
      else ok (false, entries)

  unfoldable pub delete : Dict V → Str → Bool × Dict V
  delete entries entry_id = (contains entries entry_id, pop entries entry_id)

  -- A replacement is stored exactly if the record that is there has the expected revision; no
  -- other record changes, and a refused one changes nothing.
  pub replace_lem :
      (entries : Dict V) (entry : V) (expected : ℕ)
      → revision_of entry ≡ expected + 1
      → (done : Bool) × (entries' : Dict V) × (replace entries entry expected ≡ ok (done, entries'))
        × (done ≡ has_revision (get entries (id_of entry)) expected)
        × ((k : Str)
            → get entries' k ≡ (if done && (id_of entry == k) then some entry else get entries k))
  unfolding replace
  replace_lem entries entry expected next =
      elim (Bool-cases (has_revision (get entries (id_of entry)) expected)) [
        | inl fits ↦ (
          true,
          put entries (id_of entry) entry,
          ground arith,
          sym fits,
          λ k. ground (arith, get-put entries (id_of entry) k entry),
        )
        | inr other ↦ (false, entries, ground arith, sym other, λ k. refl)
      ]
