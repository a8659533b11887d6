-- ===== src/Rules/Processing/Answers.antt =====
-- The answers of the action engine to a list of actions, and the counts that they make.
use vehicle_intelligence.Prelude.{
  ap, select, not, ◌++◌, ℕ, ◌+◌, ◌≡◌, refl, arith, ◌∙◌, length, List, [], ◌∷◌, Bool, true, false,
  Result, ok, err, Bool-cases, inl, inr,
}
use vehicle_intelligence.Rules.Processing.{EventPolicyResult, counted}

pub plus_zero : (n : ℕ) → n + 0 ≡ n
plus_zero n = omega arith

sum_assoc : (a b c : ℕ) → a + b + c ≡ a + (b + c)
sum_assoc a b c = omega arith

append_assoc : {A : Type 0} (xs ys zs : List A) → (xs ++ ys) ++ zs ≡ xs ++ (ys ++ zs)
append_assoc [] ys zs = refl
append_assoc (x ∷ xs) ys zs = ap (λ l. x ∷ l) (append_assoc xs ys zs)

length-select-append :
    {A : Type 0} (p : A → Bool) (xs ys : List A)
    → length (select p (xs ++ ys)) ≡ length (select p xs) + length (select p ys)
length-select-append p [] ys = omega arith
length-select-append p (x ∷ xs) ys = elim (Bool-cases (p x)) [
  | inl chosen ↦ rw chosen (omega (arith, length-select-append p xs ys))
  | inr other ↦ rw other (length-select-append p xs ys)
]

abbrev pub total_of : EventPolicyResult → ℕ → List Bool → EventPolicyResult
total_of counts matched answers = record {
  matched_rules = counts.matched_rules + matched;
  actions_succeeded = counts.actions_succeeded + length (select (λ b. b) answers);
  actions_skipped = counts.actions_skipped + length (select (λ b. not b) answers);
}

-- the counts of an event: its rules, and how many actions were executed and how many skipped
abbrev pub no_counts : EventPolicyResult
no_counts = record { matched_rules = 0; actions_succeeded = 0; actions_skipped = 0 }

total_of-append :
    (counts : EventPolicyResult) (n m : ℕ) (answers more : List Bool)
    → total_of (total_of counts n answers) m more ≡ total_of counts (n + m) (answers ++ more)
total_of-append counts n m answers more =
    rw
      (
        length-select-append (λ b. b) answers more,
        length-select-append (λ b. not b) answers more,
        sum_assoc counts.matched_rules n m,
        sum_assoc counts.actions_succeeded (length (select (λ b. b) answers))
            (length (select (λ b. b) more)),
        sum_assoc counts.actions_skipped (length (select (λ b. not b) answers))
            (length (select (λ b. not b) more)),
      )
      refl

pub counted_total :
    (b : Bool) (counts : EventPolicyResult) → counted b counts ≡ total_of counts 0 (b ∷ [])
counted_total true counts =
    rw (plus_zero counts.matched_rules, plus_zero counts.actions_skipped) refl
counted_total false counts =
    rw (plus_zero counts.matched_rules, plus_zero counts.actions_succeeded) refl

module _ {S : Type 0} where
  -- answers so far, then what the engine answers further
  abbrev pub prefixed : List Bool → Result (List Bool) × S → Result (List Bool) × S
  prefixed answers (err e, s) = (err e, s)
  prefixed answers (ok more, s) = (ok (answers ++ more), s)

  abbrev pub chain : Result (List Bool) × S → (S → Result (List Bool) × S) → Result (List Bool) × S
  chain (err e, s) next = (err e, s)
  chain (ok answers, s) next = prefixed answers (next s)

  abbrev pub single : Result Bool × S → Result (List Bool) × S
  single (err e, s) = (err e, s)
  single (ok b, s) = (ok (b ∷ []), s)

  -- the counts with so many more rules, and the answers for their actions
  abbrev pub finish : EventPolicyResult → ℕ → Result (List Bool) × S → Result EventPolicyResult × S
  finish counts matched (err e, s) = (err e, s)
  finish counts matched (ok answers, s) = (ok (total_of counts matched answers), s)

  -- the engine on two lists, one after the other
  pub finish-chain :
      (counts : EventPolicyResult) (n m : ℕ) (x : Result (List Bool) × S)
      (rest : EventPolicyResult → S → Result EventPolicyResult × S)
      (next : S → Result (List Bool) × S)
      → ((c : EventPolicyResult) (t : S) → rest c t ≡ finish c m (next t))
      → elim (finish counts n x).0 [
        | err e ↦ (err e, (finish counts n x).1)
        | ok counts' ↦ rest counts' (finish counts n x).1
      ]
        ≡ finish counts (n + m) (chain x next)
  finish-chain counts n m (err e, s) rest next same = refl
  finish-chain counts n m (ok answers, s) rest next same =
      same (total_of counts n answers) s ∙ further (next s)
    where
      further :
          (y : Result (List Bool) × S)
          → finish (total_of counts n answers) m y ≡ finish counts (n + m) (prefixed answers y)
      further (err e, t) = refl
      further (ok more, t) = ap (λ r. (ok r, t)) (total_of-append counts n m answers more)

  -- one more rule, before or after its actions
  pub finish_one_more :
      (counts : EventPolicyResult) (n m : ℕ) (x : Result (List Bool) × S)
      → n ≡ m + 1
      → finish (record counts { matched_rules = counts.matched_rules + 1 }) (0 + m) x
        ≡ finish counts n x
  finish_one_more counts n m (err e, s) h = refl
  finish_one_more counts n m (ok answers, s) h =
      let sum : counts.matched_rules + 1 + (0 + m) ≡ counts.matched_rules + n = omega (arith, h) in
      rw sum refl

  prefixed-append :
      (xs ys : List Bool) (z : Result (List Bool) × S)
      → prefixed (xs ++ ys) z ≡ prefixed xs (prefixed ys z)
  prefixed-append xs ys (err e, s) = refl
  prefixed-append xs ys (ok zs, s) = ap (λ l. (ok l, s)) (append_assoc xs ys zs)

  pub chain_assoc :
      (x : Result (List Bool) × S) (f g : S → Result (List Bool) × S)
      → chain (chain x f) g ≡ chain x (λ s. chain (f s) g)
  chain_assoc (err e, s) f g = refl
  chain_assoc (ok xs, s) f g = further (f s)
    where
      further : (y : Result (List Bool) × S) → chain (prefixed xs y) g ≡ prefixed xs (chain y g)
      further (err e, t) = refl
      further (ok ys, t) = prefixed-append xs ys (g t)

  pub chain_same :
      (x : Result (List Bool) × S) (f g : S → Result (List Bool) × S)
      → ((t : S) → f t ≡ g t)
      → chain x f ≡ chain x g
  chain_same (err e, s) f g same = refl
  chain_same (ok xs, s) f g same = ap (prefixed xs) (same s)

  pub prefixed_nothing : (x : Result (List Bool) × S) → prefixed [] x ≡ x
  prefixed_nothing (err e, s) = refl
  prefixed_nothing (ok answers, s) = refl
