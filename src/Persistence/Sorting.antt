-- ===== src/Persistence/Sorting.antt =====
-- `items.sort(key=…, reverse=True)`: newest first. With keys that differ the result is the same for
-- every sorting algorithm.
use vehicle_intelligence.Prelude.{
  ◌≡◌, ◌≢◌, refl, Bool, true, if◌then◌else◌, List, [], ◌∷◌, ◌++◌, suc, length, arith, Bool-cases,
  inl, inr, All, select,
}
use vehicle_intelligence.Persistence.Order.{
  Key, key_lt, key_lt_irrefl, key_lt_trans, key_lt_total, key_lt_asym,
}

module _ {ℓ} {A : Type ℓ} (key : A → Key) where
  unfoldable pub insert_newest : A → List A → List A
  insert_newest a [] = a ∷ []
  insert_newest a (b ∷ bs) =
      let tail = insert_newest a bs in if key_lt (key a) (key b) then b ∷ tail else a ∷ b ∷ bs

  unfoldable pub newest_first : List A → List A
  unfolding insert_newest
  newest_first [] = []
  newest_first (a ∷ rest) = insert_newest a (newest_first rest)

  -- the same with `reverse=False`: oldest first
  unfoldable pub insert_oldest : A → List A → List A
  insert_oldest a [] = a ∷ []
  insert_oldest a (b ∷ bs) =
      let tail = insert_oldest a bs in if key_lt (key b) (key a) then b ∷ tail else a ∷ b ∷ bs

  unfoldable pub oldest_first : List A → List A
  unfolding insert_oldest
  oldest_first [] = []
  oldest_first (a ∷ rest) = insert_oldest a (oldest_first rest)

  length-insert : (a : A) (rest : List A) → length (insert_newest a rest) ≡ suc (length rest)
  unfolding insert_newest
  length-insert a [] = refl
  length-insert a (b ∷ rest) = ground (arith, length-insert a rest)

  pub length-newest_first : (items : List A) → length (newest_first items) ≡ length items
  unfolding newest_first
  length-newest_first [] = refl
  length-newest_first (a ∷ items) =
      omega (arith, length-insert a (newest_first items), length-newest_first items)

  -- Every item is newer than all behind it.
  abbrev pub IsDescending : List A → Type ℓ
  IsDescending [] = Unit
  IsDescending (a ∷ rest) = All (λ b. key_lt (key b) (key a) ≡ true) rest × IsDescending rest

  -- No two items have the same id.
  abbrev pub HasIds : List A → Type ℓ
  HasIds [] = Unit
  HasIds (a ∷ rest) = All (λ b. (key b).id ≢ (key a).id) rest × HasIds rest

  All-insert {κ} :
      (P : A → Type κ) (a : A) (rest : List A) → P a → All P rest → All P (insert_newest a rest)
  unfolding insert_newest
  All-insert P a [] p h = (p, tt)
  All-insert P a (b ∷ bs) p h = elim (Bool-cases (key_lt (key a) (key b))) [
    | inl older ↦ rw older (h.0, All-insert P a bs p h.1)
    | inr newer ↦ rw newer (p, h)
  ]

  pub All-newest_first {κ} :
      (P : A → Type κ) (rest : List A) → All P rest → All P (newest_first rest)
  unfolding newest_first
  All-newest_first P [] h = tt
  All-newest_first P (a ∷ rest) h =
      All-insert P a (newest_first rest) h.0 (All-newest_first P rest h.1)

  All-insert_oldest {κ} :
      (P : A → Type κ) (a : A) (rest : List A) → P a → All P rest → All P (insert_oldest a rest)
  unfolding insert_oldest
  All-insert_oldest P a [] p h = (p, tt)
  All-insert_oldest P a (b ∷ bs) p h = elim (Bool-cases (key_lt (key b) (key a))) [
    | inl older ↦ rw older (h.0, All-insert_oldest P a bs p h.1)
    | inr newer ↦ rw newer (p, h)
  ]

  pub All-oldest_first {κ} :
      (P : A → Type κ) (rest : List A) → All P rest → All P (oldest_first rest)
  unfolding oldest_first
  All-oldest_first P [] h = tt
  All-oldest_first P (a ∷ rest) h =
      All-insert_oldest P a (oldest_first rest) h.0 (All-oldest_first P rest h.1)

  All-below :
      (a b : A) (rest : List A)
      → key_lt (key b) (key a) ≡ true
      → All (λ c. key_lt (key c) (key b) ≡ true) rest
      → All (λ c. key_lt (key c) (key a) ≡ true) rest
  All-below a b [] h k = tt
  All-below a b (c ∷ rest) h k =
      (key_lt_trans (key c) (key b) (key a) k.0 h, All-below a b rest h k.1)

  insert-IsDescending :
      (a : A) (rest : List A)
      → All (λ b. (key b).id ≢ (key a).id) rest
      → IsDescending rest
      → IsDescending (insert_newest a rest)
  unfolding insert_newest
  insert-IsDescending a [] n d = (tt, tt)
  insert-IsDescending a (b ∷ bs) n d = elim (Bool-cases (key_lt (key a) (key b))) [
    | inl older ↦ rw older (
      All-insert (λ c. key_lt (key c) (key b) ≡ true) a bs older d.0,
      insert-IsDescending a bs n.1 d.1,
    )
    | inr newer ↦ elim (Bool-cases (key_lt (key b) (key a))) [
      | inl below ↦ rw newer ((below, All-below a b bs below d.0), d)
      | inr above ↦ absurd (n.0 (key_lt_total (key b) (key a) above newer))
    ]
  ]

  -- A listing of items with different ids is in strictly descending order.
  pub newest_first-IsDescending : (rest : List A) → HasIds rest → IsDescending (newest_first rest)
  unfolding newest_first
  newest_first-IsDescending [] h = tt
  newest_first-IsDescending (a ∷ rest) h =
      insert-IsDescending a (newest_first rest)
        (All-newest_first (λ b. (key b).id ≢ (key a).id) rest h.0)
        (newest_first-IsDescending rest h.1)

  select-All : (p : A → Bool) (rest : List A) → All (λ b. p b ≡ true) rest → select p rest ≡ rest
  select-All p [] h = refl
  select-All p (b ∷ rest) h = rw (h.0, select-All p rest h.1)

  -- What is older than an item of the listing is what stands behind it.
  pub select-after :
      (xs : List A) (x : A) (ys : List A)
      → IsDescending (xs ++ x ∷ ys)
      → select (λ b. key_lt (key b) (key x)) (xs ++ x ∷ ys) ≡ ys
  select-after [] x ys d = rw key_lt_irrefl (select-All (λ b. key_lt (key b) (key x)) ys d.0)
  select-after (a ∷ xs) x ys d =
      rw (key_lt_asym (key x) (key a) (All-middle xs x ys d.0)) (select-after xs x ys d.1)
    where
      All-middle :
          (zs : List A) (z : A) (ws : List A)
          → All (λ b. key_lt (key b) (key a) ≡ true) (zs ++ z ∷ ws)
          → key_lt (key z) (key a) ≡ true
      All-middle [] z ws h = h.0
      All-middle (y ∷ zs) z ws h = All-middle zs z ws h.1
