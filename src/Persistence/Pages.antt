-- ===== src/Persistence/Pages.antt =====
-- Pages with a cursor, as the `list` methods of the event, alert and sample repositories make them.
-- A cursor is an encoded key; the model carries the key.
use vehicle_intelligence.Prelude.{
  ℕ, zero, suc, ◌≤◌, ◌<◌, ◌≡◌, refl, sym, ap, ◌∙◌, ltb, if◌then◌else◌, Option, none, some, List, [],
  ◌∷◌, ◌++◌, take, length, select, arith, Bool-cases, inl, inr, ltb→ge, ltb→lt,
}
use mathlib.Core.List.{append-nil, append_assoc}
use mathlib.Core.Path.{subst}
use vehicle_intelligence.Persistence.Order.{Key, key_lt}
use vehicle_intelligence.Persistence.Sorting.{
  newest_first, IsDescending, HasIds, newest_first-IsDescending, length-newest_first, select-after,
}

pub record Page {ℓ} (A : Type ℓ) : Type ℓ where
  pub items : List A
  pub next_cursor : Option Key

take_all {ℓ} : {A : Type ℓ} (n : ℕ) (items : List A) → length items ≤ n → take n items ≡ items
take_all zero [] h = refl
take_all zero (a ∷ items) h = absurd (omega arith)
take_all (suc n) [] h = refl
take_all (suc n) (a ∷ items) h = ap (λ ys. a ∷ ys) (take_all n items (omega arith))

-- A proper beginning that is not empty has a last item.
take-split {ℓ} :
    {A : Type ℓ} (n : ℕ) (items : List A)
    → suc n < length items
    → (xs : List A) × (x : A) × (ys : List A) × (take (suc n) items ≡ xs ++ x ∷ [])
      × (items ≡ xs ++ x ∷ ys)
      × (length ys < length items)
      × (take (suc n) (take (suc (suc n)) items) ≡ xs ++ x ∷ [])
      × (length (take (suc (suc n)) items) ≡ suc (suc n))
take-split n [] long = absurd (omega arith)
take-split zero (a ∷ []) long = absurd (omega arith)
take-split zero (a ∷ b ∷ items) long = ([], a, b ∷ items, refl, refl, omega arith, refl, refl)
take-split (suc n) (a ∷ items) long =
    let (xs, x, ys, begins, splits, fewer, again, full) = take-split n items (omega arith) in
    (
      a ∷ xs,
      x,
      ys,
      ap (λ zs. a ∷ zs) begins,
      ap (λ zs. a ∷ zs) splits,
      omega arith,
      ap (λ zs. a ∷ zs) again,
      omega arith,
    )

module _ {ℓ} {A : Type ℓ} (key : A → Key) where
  -- the key of page[-1]
  unfoldable pub last_key : List A → Option Key
  last_key [] = none
  last_key (a ∷ []) = some (key a)
  last_key (a ∷ b ∷ rest) = last_key (b ∷ rest)

  unfoldable pub after_cursor : Option Key → List A → List A
  after_cursor none items = items
  after_cursor (some cursor) items = select (λ a. key_lt (key a) cursor) items

  unfoldable pub page_of : ℕ → List A → Page A
  unfolding last_key
  page_of limit items =
      let page = take (suc limit) items in
      let kept = take limit page in
      record { items = kept; next_cursor = if ltb limit (length page) then last_key kept else none }

  -- the listing behind the filter of a query
  unfoldable pub list_page : ℕ → Option Key → List A → Page A
  list_page limit cursor matching = page_of limit (after_cursor cursor (newest_first key matching))

  last_key-append : (xs : List A) (x : A) → last_key (xs ++ x ∷ []) ≡ some (key x)
  unfolding last_key
  last_key-append [] x = refl
  last_key-append (a ∷ []) x = refl
  last_key-append (a ∷ b ∷ xs) x = last_key-append (b ∷ xs) x

  -- The client of a listing: it asks for a page, and again with the cursor, until there is none.
  unfoldable pub walk : ℕ → ℕ → Option Key → List A → List A
  walk zero limit cursor matching = []
  walk (suc fuel) limit cursor matching =
      let page = list_page limit cursor matching in
      page.items
      ++ (elim page.next_cursor [ none ↦ [] | some next ↦ walk fuel limit (some next) matching ])

  -- A page of a list that fits is the list, with no cursor.
  page_of-short :
      (limit : ℕ) (items : List A)
      → length items ≤ limit
      → page_of limit items ≡ record { items = items; next_cursor = none }
  unfolding page_of
  page_of-short limit items short =
      rw (take_all (suc limit) items (omega arith), take_all limit items short) (ground arith)

  -- A page of a longer list is its beginning, and the cursor is the key of the page's last item.
  page_of-long :
      (limit : ℕ) (items : List A)
      → 0 < limit
      → limit < length items
      → (xs : List A) × (x : A) × (ys : List A) × (page_of limit items
          ≡ record { items = xs ++ x ∷ []; next_cursor = some (key x) })
        × (items ≡ xs ++ x ∷ ys)
        × (length ys < length items)
  unfolding page_of
  page_of-long zero items positive long = absurd (omega arith)
  page_of-long (suc n) items positive long =
      let (xs, x, ys, begins, splits, fewer, again, full) = take-split n items long in
      (xs, x, ys, rw (again, full, last_key-append xs x) (ground arith), splits, fewer)

  after_cursor-split :
      (items before : List A) (x : A) (ys : List A)
      → IsDescending key items
      → items ≡ before ++ x ∷ ys
      → after_cursor (some (key x)) items ≡ ys
  unfolding after_cursor
  after_cursor-split items before x ys falls parts =
      rw parts (select-after key before x ys (subst (λ zs. IsDescending key zs) parts falls))

  -- From a cursor on, the client receives what the cursor leaves.
  walk_from :
      (fuel limit : ℕ) (cursor : Option Key) (matching seen rest : List A)
      → 0 < limit
      → IsDescending key (newest_first key matching)
      → newest_first key matching ≡ seen ++ rest
      → after_cursor cursor (newest_first key matching) ≡ rest
      → length rest < fuel
      → walk fuel limit cursor matching ≡ rest
  unfolding walk list_page
  walk_from zero limit cursor matching seen rest positive falls parts next enough =
      absurd (omega arith)
  walk_from (suc fuel) limit cursor matching seen rest positive falls parts next enough =
      elim (Bool-cases (ltb limit (length rest))) [
        | inr short ↦
            rw (next, page_of-short limit rest (ltb→ge limit (length rest) short)) (append-nil rest)
        | inl long ↦
            let (xs, x, ys, page, splits, fewer) =
              page_of-long limit rest positive (ltb→lt limit (length rest) long) in
            let whole =
              parts ∙ ap (λ zs. seen ++ zs) splits ∙ sym (append_assoc seen xs (x ∷ ys)) in
            let further =
              walk_from fuel limit (some (key x)) matching ((seen ++ xs) ++ x ∷ []) ys positive
                falls (whole ∙ sym (append_assoc (seen ++ xs) (x ∷ []) ys))
                (after_cursor-split (newest_first key matching) (seen ++ xs) x ys falls whole)
                (omega arith) in
            rw (next, page, further) (append_assoc xs (x ∷ []) ys ∙ sym splits)
      ]

  -- Whoever follows the cursors receives every item that matches once, newest first.
  pub walk_complete :
      (limit : ℕ) (matching : List A)
      → 0 < limit
      → HasIds key matching
      → walk (suc (length matching)) limit none matching ≡ newest_first key matching
  unfolding after_cursor
  walk_complete limit matching positive distinct =
      walk_from (suc (length matching)) limit none matching [] (newest_first key matching) positive
        (newest_first-IsDescending key matching distinct) refl refl
        (omega (arith, length-newest_first key matching))
