-- ===== src/Plates/Coercion.antt =====
-- What `_coerce_positions` does to the characters, position by position.
use vehicle_intelligence.Prelude.{
  ℕ, zero, suc, ◌+◌, ◌≤◌, ◌<◌, ◌≡◌, refl, sym, ap, ◌∙◌, arith, Str, eqb, length, length-append,
  length-set, get_elem?, get_elem?-set, set, if◌then◌else◌, Option, none, some, Option-cases,
  Bool-cases, ◌⊎◌, inl, inr, List, [], ◌∷◌, ◌++◌, some_injective, none-ne-some, chain-some, Bool,
  true, false,
}
use mathlib.Core.Path.{subst}
use vehicle_intelligence.Plates.{
  CharacterCorrection, Coerced, fits, replacement_of, letter_to_digit, digit_to_letter, replaced,
  coerce_character, coerce_positions,
}

abbrev pub has_position : ℕ → List ℕ → Bool
has_position j [] = false
has_position j (p ∷ ps) = let rest = has_position j ps in if eqb p j then true else rest

-- The character at a position is of the kind that is expected there.
abbrev pub fits_at : Bool → Str → ℕ → Bool
fits_at expect characters i = elim (get_elem? characters i) [
  | none ↦ false
  | some c ↦ fits expect c
]

-- The corrections undone, the last one first.
abbrev pub restore : Str → List CharacterCorrection → Str
restore characters [] = characters
restore characters (c ∷ rest) = set (restore characters rest) c.position c.from_character

restore-append :
    (characters : Str) (cs : List CharacterCorrection) (c : CharacterCorrection)
    → restore characters (cs ++ c ∷ []) ≡ restore (set characters c.position c.from_character) cs
restore-append characters [] c = refl
restore-append characters (d ∷ cs) c =
    ap (λ s. set s d.position d.from_character) (restore-append characters cs c)

set-set :
    (characters : Str) (i a b : ℕ)
    → get_elem? characters i ≡ some a
    → set (set characters i b) i a ≡ characters
set-set [] i a b h = refl
set-set (x ∷ xs) zero a b h = ground (arith, h)
set-set (x ∷ xs) (suc i) a b h = ap (λ s. x ∷ s) (set-set xs i a b h)

replacement-fits :
    (expect : Bool) (c d : ℕ) → replacement_of expect c ≡ some d → fits expect d ≡ true
unfolding letter_to_digit digit_to_letter
replacement-fits true c d h = ground (arith, h)
replacement-fits false c d h = ground (arith, h)

-- How a round, or a loop over positions, leads from one state to another.
pub record IsCoerced (ps : List ℕ) (expect : Bool) (before after : Coerced) : Type 0 where
  pub kept : (j : ℕ) → has_position j ps ≡ false → get_elem? after.0 j ≡ get_elem? before.0 j
  pub fitted : (j : ℕ) → has_position j ps ≡ true → fits_at expect after.0 j ≡ true
  pub same_length : length after.0 ≡ length before.0
  pub more : length before.1 ≤ length after.1
  pub undone : restore after.0 after.1 ≡ restore before.0 before.1

pub IsCoerced-nil : (expect : Bool) (s : Coerced) → IsCoerced [] expect s s
IsCoerced-nil expect s = record {
  kept = λ j h. refl;
  fitted = λ j h. ground (arith, h);
  same_length = refl;
  more = omega arith;
  undone = refl;
}

-- a round that has a correction to make
replaced-IsCoerced :
    (expect : Bool) (p c d : ℕ) (s t : Coerced)
    → get_elem? s.0 p ≡ some c
    → fits expect d ≡ true
    → replaced (some d) p c s ≡ some t
    → IsCoerced (p ∷ []) expect s t × (length t.1 ≡ length s.1 + 1)
replaced-IsCoerced expect p c d (cs, ks) t here good h = subst Made (some_injective h) made
  where
    Made : Coerced → Type 0
    Made t = IsCoerced (p ∷ []) expect (cs, ks) t × (length t.1 ≡ length ks + 1)

    some_injective : {a b : Coerced} → some a ≡ some b → a ≡ b
    some_injective e = ground (arith, e)

    made :
        Made (set cs p d, ks ++ record { position = p; from_character = c; to_character = d } ∷ [])
    made = (
      record {
        kept = λ j away. ground (arith, get_elem?-set cs p j d, away);
        fitted = λ j at. ground (arith, get_elem?-set cs p j d, at, here, good);
        same_length = length-set cs p d;
        more = omega (arith, length-append {0} ks _);
        undone = restore-append (set cs p d) ks _ ∙ ap (λ x. restore x ks) (set-set cs p c d here);
      },
      length-append ks _,
    )

IsCoerced-transitive :
    {expect : Bool} (p : ℕ) (ps : List ℕ) (s t u : Coerced)
    → IsCoerced (p ∷ []) expect s t
    → IsCoerced ps expect t u
    → IsCoerced (p ∷ ps) expect s u
IsCoerced-transitive {expect} p ps s t u first rest = record {
  kept = λ j away. ground (arith, away, first.kept j, rest.kept j);
  fitted = λ j at. elim (Bool-cases (has_position j ps)) [
    | inl later ↦ rest.fitted j later
    | inr now ↦
        let here : has_position j (p ∷ []) ≡ true = ground (arith, at, now) in
        subst (λ o. (elim o [ none ↦ false | some c ↦ fits expect c ]) ≡ true)
          (sym (rest.kept j now)) (first.fitted j here)
  ];
  same_length = rest.same_length ∙ first.same_length;
  more = omega (arith, first.more, rest.more);
  undone = rest.undone ∙ first.undone;
}

-- What one round does, by what it finds at its position.
record Round (p : ℕ) (expect : Bool) (before after : Coerced) : Type 0 where
  coerced : IsCoerced (p ∷ []) expect before after
  corrected : fits_at expect before.0 p ≡ false → length after.1 ≡ length before.1 + 1

round :
    (p : ℕ) (expect : Bool) (s t : Coerced)
    → coerce_character (get_elem? s.0 p) p expect s ≡ some t
    → Round p expect s t
round p expect s t h = elim (Option-cases (get_elem? s.0 p)) [
  | inl outside ↦ absurd (none-ne-some (sym (ap (λ o. coerce_character o p expect s) outside) ∙ h))
  | inr (c, here) ↦
      by_fit c here (Bool-cases (fits expect c))
        (sym (ap (λ o. coerce_character o p expect s) here) ∙ h)
]
  where
    at_fit :
        (c : ℕ)
        → get_elem? s.0 p ≡ some c
        → fits expect c ≡ true
        → (j : ℕ) → has_position j (p ∷ []) ≡ true
        → fits_at expect s.0 j ≡ true
    at_fit c here good j at = ground (arith, here, good, at)

    by_replacement :
        (c : ℕ) (o : Option ℕ)
        → get_elem? s.0 p ≡ some c
        → replacement_of expect c ≡ o
        → replaced o p c s ≡ some t
        → Round p expect s t
    by_replacement c none here found e = absurd (none-ne-some e)
    by_replacement c (some d) here found e =
        let (coerced, counted) =
          replaced-IsCoerced expect p c d s t here (replacement-fits expect c d found) e in
        record { coerced = coerced; corrected = λ _. counted }

    by_fit :
        (c : ℕ)
        → get_elem? s.0 p ≡ some c
        → ((fits expect c ≡ true) ⊎ (fits expect c ≡ false))
        → coerce_character (some c) p expect s ≡ some t
        → Round p expect s t
    by_fit c here (inl good) e =
        let same : s ≡ t = some_injective (rw good at e) in
        subst (λ u. Round p expect s u) same
          (record {
            coerced = record {
              kept = λ j away. refl;
              fitted = at_fit c here good;
              same_length = refl;
              more = omega arith;
              undone = refl;
            };
            corrected = λ bad. ground (arith, bad, here, good);
          })
    by_fit c here (inr bad) e = by_replacement c (replacement_of expect c) here refl (rw bad at e)

-- The loop: its positions fit, the others are as before, and the corrections can be undone.
pub coerce_positions-IsCoerced :
    (ps : List ℕ) (expect : Bool) (s t : Coerced)
    → coerce_positions ps expect s ≡ some t
    → IsCoerced ps expect s t
unfolding coerce_positions
coerce_positions-IsCoerced [] expect s t h =
    subst (λ u. IsCoerced [] expect s u) (some_injective h) (IsCoerced-nil expect s)
coerce_positions-IsCoerced (p ∷ ps) expect s t h =
    let (m, first, rest) =
      chain-some (coerce_character (get_elem? s.0 p) p expect s) (λ u. coerce_positions ps expect u)
        h in
    IsCoerced-transitive p ps s m t (round p expect s m first).coerced
      (coerce_positions-IsCoerced ps expect m t rest)

-- Where every position fits, nothing changes.
pub coerce_positions_same :
    (ps : List ℕ) (expect : Bool) (s : Coerced)
    → ((j : ℕ) → has_position j ps ≡ true → fits_at expect s.0 j ≡ true)
    → coerce_positions ps expect s ≡ some s
unfolding coerce_positions
coerce_positions_same [] expect s h = refl
coerce_positions_same (p ∷ ps) expect s h = elim (Option-cases (get_elem? s.0 p)) [
  | inl outside ↦ ground (arith, h p, outside)
  | inr (c, here) ↦
      let fitted : fits expect c ≡ true = ground (arith, h p, here) in
      rw (here, fitted, coerce_positions)
        (coerce_positions_same ps expect s (λ j at. h j (ground (arith, at))))
]

-- A first position that fits is passed over.
pub coerce_positions_fit :
    (p : ℕ) (ps : List ℕ) (expect : Bool) (s : Coerced)
    → fits_at expect s.0 p ≡ true
    → coerce_positions (p ∷ ps) expect s ≡ coerce_positions ps expect s
unfolding coerce_positions
coerce_positions_fit p ps expect s h = elim (Option-cases (get_elem? s.0 p)) [
  | inl outside ↦ ground (arith, h, outside)
  | inr (c, here) ↦
      let fitted : fits expect c ≡ true = ground (arith, h, here) in
      rw (here, fitted, coerce_positions) refl
]

-- A position that does not fit costs a correction.
pub coerce_positions_more :
    (ps : List ℕ) (expect : Bool) (s t : Coerced) (j : ℕ)
    → coerce_positions ps expect s ≡ some t
    → has_position j ps ≡ true
    → fits_at expect s.0 j ≡ false
    → length s.1 < length t.1
unfolding coerce_positions
coerce_positions_more [] expect s t j h at bad = ground (arith, at)
coerce_positions_more (p ∷ ps) expect s t j h at bad =
    let (m, first, rest) =
      chain-some (coerce_character (get_elem? s.0 p) p expect s) (λ u. coerce_positions ps expect u)
        h in
    let r = round p expect s m first in
    let further = coerce_positions-IsCoerced ps expect m t rest in
    elim (Bool-cases (eqb p j)) [
      | inl here ↦
          let same : p ≡ j = ground (arith, here) in
          omega (
            arith,
            r.corrected (subst (λ i. fits_at expect s.0 i ≡ false) (sym same) bad),
            further.more,
          )
      | inr away ↦
          let later : has_position j ps ≡ true = ground (arith, at, away) in
          let kept : get_elem? m.0 j ≡ get_elem? s.0 j = r.coerced.kept j (ground (arith, away)) in
          omega (
            arith,
            r.coerced.more,
            coerce_positions_more ps expect m t j rest later (
                subst (λ o. (elim o [ none ↦ false | some c ↦ fits expect c ]) ≡ false) (sym kept)
                  bad),
          )
    ]
