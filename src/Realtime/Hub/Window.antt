-- ===== src/Realtime/Hub/Window.antt =====
-- The replay history of the hub is a window on the log of the events it accepted.
use vehicle_intelligence.Prelude.{
  ℕ, zero, suc, ◌-◌, ◌≤◌, ◌<◌, ◌≡◌, refl, sym, ap, ◌∙◌, arith, Str, eq_refl, length, length-append,
  drop, leb, ltb, if◌then◌else◌, List, [], ◌∷◌, ◌++◌, List-cases, true, false, member, discard,
  IsUnique, IsUnique-append, Bool-cases, inl, inr,
}
use mathlib.Core.Path.{subst}
use vehicle_intelligence.Realtime.Hub.{RealtimeHub, expire, add_id, remember}

abbrev pub latest {ℓ} : {A : Type ℓ} → ℕ → List A → List A
latest n xs = drop (length xs - n) xs

module _ {ℓ} {A : Type ℓ} where
  abbrev pub popleft : List A → List A
  popleft [] = []
  popleft (x ∷ xs) = xs

  drop-append_lem : (k : ℕ) (xs ys : List A) → k ≤ length xs → drop k (xs ++ ys) ≡ drop k xs ++ ys
  drop-append_lem zero xs ys h = refl
  drop-append_lem (suc k) [] ys h = absurd (omega arith)
  drop-append_lem (suc k) (x ∷ xs) ys h = drop-append_lem k xs ys (omega arith)

  drop-suc : (k : ℕ) (xs : List A) → drop (suc k) xs ≡ popleft (drop k xs)
  drop-suc zero [] = refl
  drop-suc (suc k) [] = refl
  drop-suc zero (x ∷ xs) = refl
  drop-suc (suc k) (x ∷ xs) = drop-suc k xs

  pub drop_nil : (k : ℕ) → drop {A = A} k [] ≡ []
  drop_nil zero = refl
  drop_nil (suc k) = refl

  drop_all : (xs : List A) → drop (length xs) xs ≡ []
  drop_all [] = refl
  drop_all (x ∷ xs) = drop_all xs

  pub length-drop : (k : ℕ) (xs : List A) → length (drop k xs) ≡ length xs - k
  length-drop zero xs = omega arith
  length-drop (suc k) [] = omega arith
  length-drop (suc k) (x ∷ xs) = omega (arith, length-drop k xs)

  drop_at : (xs : List A) (i j : ℕ) → i ≡ j → drop i xs ≡ drop j xs
  drop_at xs i j e = ap (λ k. drop k xs) e

  -- What a window of n becomes with one more element.
  unfoldable pub slid : ℕ → A → List A → List A
  slid n x window =
      if ltb 0 n
      then (if leb n (length window) then popleft window else window) ++ x ∷ []
      else window

  pub latest-append :
      (n : ℕ) (xs : List A) (x : A) → latest n (xs ++ x ∷ []) ≡ slid n x (latest n xs)
  unfolding slid
  latest-append zero xs x =
      drop_at (xs ++ x ∷ []) (length (xs ++ x ∷ []) - 0) (length (xs ++ x ∷ [])) (omega arith)
      ∙ drop_all (xs ++ x ∷ [])
      ∙ sym (drop_at xs (length xs - 0) (length xs) (omega arith) ∙ drop_all xs)
  latest-append (suc n) xs x =
      let room : ltb 0 (suc n) ≡ true = ground arith in
      elim (Bool-cases (leb (suc n) (length xs))) [
        | inl long ↦
            let k : ℕ = length xs - suc n in
            let full : leb (suc n) (length (drop k xs)) ≡ true =
              ground (arith, length-drop k xs, long) in
            drop_at (xs ++ x ∷ []) (length (xs ++ x ∷ []) - suc n) (suc k)
              (ground (arith, length-append xs (x ∷ []), long))
            ∙ drop-append_lem (suc k) xs (x ∷ []) (ground (arith, long))
            ∙ rw (room, drop-suc k xs, full) refl
        | inr short ↦
            let whole : length xs - suc n ≡ 0 = ground (arith, short) in
            drop_at (xs ++ x ∷ []) (length (xs ++ x ∷ []) - suc n) 0
              (ground (arith, length-append xs (x ∷ []), short))
            ∙ rw (whole, room, short) refl
      ]

discard_absent : (x : Str) (xs : List Str) → member x xs ≡ false → discard x xs ≡ xs
discard_absent x [] h = refl
discard_absent x (y ∷ xs) h = ground (arith, discard_absent x xs)

module _ {E : Type 0} (id_of : E → Str) where
  abbrev pub ids_of : List E → List Str
  ids_of [] = []
  ids_of (e ∷ es) = id_of e ∷ ids_of es

  ids_of-append : (es : List E) (e : E) → ids_of (es ++ e ∷ []) ≡ ids_of es ++ id_of e ∷ []
  ids_of-append [] e = refl
  ids_of-append (d ∷ es) e = ap (λ x. id_of d ∷ x) (ids_of-append es e)

  -- The set of ids is that of the history, which holds no id twice and no more than it may.
  pub record IsHistory (h : RealtimeHub E) : Type 0 where
    pub ids : h.history_ids ≡ ids_of h.history
    pub unique : IsUnique (ids_of h.history)
    pub bounded : length h.history ≤ h.replay_size

  add-IsHistory :
      (e : E) (h : RealtimeHub E) (kept : List E)
      → IsUnique (ids_of kept)
      → length kept < h.replay_size
      → member (id_of e) (ids_of kept) ≡ false
      → IsHistory (record h {
        history = kept ++ e ∷ [];
        history_ids = add_id id_of (id_of e) (ids_of kept);
      })
  add-IsHistory e h kept unique room fresh = record {
    ids = rw fresh (sym (ids_of-append kept e));
    unique =
        subst IsUnique (sym (ids_of-append kept e))
          (IsUnique-append (ids_of kept) (id_of e) unique fresh);
    bounded = omega (arith, length-append kept (e ∷ []), room);
  }

  -- What remembering a new event does.
  abbrev pub Remembered : E → RealtimeHub E → RealtimeHub E → Type 0
  Remembered e h after =
      IsHistory after
      × (after.history ≡ slid h.replay_size e h.history)
      × (after.replay_size ≡ h.replay_size)

  remember_room :
      (e : E) (h : RealtimeHub E)
      → IsHistory h
      → member (id_of e) h.history_ids ≡ false
      → length h.history < h.replay_size
      → Remembered e h (remember id_of e h)
  unfolding remember slid
  remember_room e h history fresh room =
      let some_size : ltb 0 h.replay_size ≡ true = ground (arith, room) in
      let more : leb h.replay_size (length h.history) ≡ false = ground (arith, room) in
      rw (some_size, more, remember, history.ids)
        (
          add-IsHistory e h h.history history.unique room
              (subst (λ ids. member (id_of e) ids ≡ false) history.ids fresh),
          refl,
          refl,
        )

  remember_full :
      (e : E) (h : RealtimeHub E) (x : E) (rest : List E)
      → IsHistory h
      → member (id_of e) h.history_ids ≡ false
      → h.history ≡ x ∷ rest
      → length h.history ≡ h.replay_size
      → Remembered e h (remember id_of e h)
  unfolding remember slid
  remember_full e h x rest history fresh front full =
      let size : length h.history ≡ suc (length rest) = ap (λ (es : List E). length es) front in
      let some_size : ltb 0 h.replay_size ≡ true = ground (arith, size, full) in
      let more : leb h.replay_size (length h.history) ≡ true = ground (arith, full) in
      let unique = subst (λ es. IsUnique (ids_of es)) front history.unique in
      let ids : h.history_ids ≡ ids_of (x ∷ rest) = history.ids ∙ ap ids_of front in
      let kept : discard (id_of x) h.history_ids ≡ ids_of rest =
        rw (ids, eq_refl (id_of x)) (discard_absent (id_of x) (ids_of rest) unique.0) in
      let new : member (id_of e) (ids_of rest) ≡ false =
        ground (arith, subst (λ ids. member (id_of e) ids ≡ false) ids fresh) in
      rw (some_size, more, remember, expire, front, kept)
        (add-IsHistory e h rest unique.1 (omega (arith, size, full)) new, refl, refl)

  pub remember_lem :
      (e : E) (h : RealtimeHub E)
      → IsHistory h
      → member (id_of e) h.history_ids ≡ false
      → Remembered e h (remember id_of e h)
  unfolding remember slid
  remember_lem e h history fresh = elim (Bool-cases (leb h.replay_size (length h.history))) [
    | inr room ↦ remember_room e h history fresh (ground (arith, room))
    | inl full ↦ elim (List-cases h.history) [
      | inr (x, rest, front) ↦
          remember_full e h x rest history fresh front (ground (arith, full, history.bounded))
      | inl empty ↦
          let size : length h.history ≡ 0 = ap (λ (es : List E). length es) empty in
          let off : ltb 0 h.replay_size ≡ false = ground (arith, full, size) in
          rw (off, remember) (history, refl, refl)
    ]
  ]
