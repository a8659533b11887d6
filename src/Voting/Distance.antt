-- ===== src/Voting/Distance.antt =====
-- edit_distance is the least cost of an edit script.
use vehicle_intelligence.Prelude.{
  ℕ, ◌+◌, ◌≤◌, ◌≡◌, refl, sym, ap, ◌∙◌, arith, Str, ltb, length, List, [], ◌∷◌, Bool-cases, inl,
  inr,
}
use mathlib.Core.Path.{subst}
use vehicle_intelligence.Voting.{distance, edit_distance}
use vehicle_intelligence.Voting.Table.{lev, onto, distance-lev}
use vehicle_intelligence.Voting.Scripts.{
  Edit, keep, change, insert, delete, source, target, cost, Script, lev-Script, lev-cost,
}

-- a script read backwards
source-onto :
    (script done : List Edit) → source (onto script done) ≡ onto (source script) (source done)
source-onto [] done = refl
source-onto (keep c ∷ script) done = source-onto script (keep c ∷ done)
source-onto (change c d ∷ script) done = source-onto script (change c d ∷ done)
source-onto (insert d ∷ script) done = source-onto script (insert d ∷ done)
source-onto (delete c ∷ script) done = source-onto script (delete c ∷ done)

target-onto :
    (script done : List Edit) → target (onto script done) ≡ onto (target script) (target done)
target-onto [] done = refl
target-onto (keep c ∷ script) done = target-onto script (keep c ∷ done)
target-onto (change c d ∷ script) done = target-onto script (change c d ∷ done)
target-onto (insert d ∷ script) done = target-onto script (insert d ∷ done)
target-onto (delete c ∷ script) done = target-onto script (delete c ∷ done)

cost-onto : (script done : List Edit) → cost (onto script done) ≡ cost script + cost done
cost-onto [] done = omega arith
cost-onto (keep c ∷ script) done = omega (arith, cost-onto script (keep c ∷ done))
cost-onto (change c d ∷ script) done = omega (arith, cost-onto script (change c d ∷ done))
cost-onto (insert d ∷ script) done = omega (arith, cost-onto script (insert d ∷ done))
cost-onto (delete c ∷ script) done = omega (arith, cost-onto script (delete c ∷ done))

-- a text read backwards twice
onto-onto : (xs ys : Str) → onto (onto xs ys) [] ≡ onto ys xs
onto-onto [] ys = refl
onto-onto (x ∷ xs) ys = onto-onto xs (x ∷ ys)

backwards :
    (left right : Str) (n : ℕ) → Script (onto left []) (onto right []) n → Script left right n
backwards left right n s = record {
  script = onto s.script [];
  from_left = source-onto s.script [] ∙ ap (λ t. onto t []) s.from_left ∙ onto-onto left [];
  to_right = target-onto s.script [] ∙ ap (λ t. onto t []) s.to_right ∙ onto-onto right [];
  costs = omega (arith, cost-onto s.script [], s.costs);
}

-- a script that undoes another
flip : List Edit → List Edit
flip [] = []
flip (keep c ∷ script) = keep c ∷ flip script
flip (change c d ∷ script) = change d c ∷ flip script
flip (insert d ∷ script) = delete d ∷ flip script
flip (delete c ∷ script) = insert c ∷ flip script

source-flip : (script : List Edit) → source (flip script) ≡ target script
unfolding flip
source-flip [] = refl
source-flip (keep c ∷ script) = ap (λ t. c ∷ t) (source-flip script)
source-flip (change c d ∷ script) = ap (λ t. d ∷ t) (source-flip script)
source-flip (insert d ∷ script) = ap (λ t. d ∷ t) (source-flip script)
source-flip (delete c ∷ script) = source-flip script

target-flip : (script : List Edit) → target (flip script) ≡ source script
unfolding flip
target-flip [] = refl
target-flip (keep c ∷ script) = ap (λ t. c ∷ t) (target-flip script)
target-flip (change c d ∷ script) = ap (λ t. c ∷ t) (target-flip script)
target-flip (insert d ∷ script) = target-flip script
target-flip (delete c ∷ script) = ap (λ t. c ∷ t) (target-flip script)

cost-flip : (script : List Edit) → cost (flip script) ≡ cost script
unfolding flip
cost-flip [] = refl
cost-flip (keep c ∷ script) = cost-flip script
cost-flip (change c d ∷ script) = ap (λ n. n + 1) (cost-flip script)
cost-flip (insert d ∷ script) = ap (λ n. n + 1) (cost-flip script)
cost-flip (delete c ∷ script) = ap (λ n. n + 1) (cost-flip script)

flipped : (left right : Str) (n : ℕ) → Script right left n → Script left right n
flipped left right n s = record {
  script = flip s.script;
  from_left = source-flip s.script ∙ s.to_right;
  to_right = target-flip s.script ∙ s.from_left;
  costs = cost-flip s.script ∙ s.costs;
}

distance-Script : (left right : Str) → Script left right (distance left right)
distance-Script left right =
    subst (Script left right) (sym (distance-lev left right))
      (backwards left right _ (lev-Script (onto left []) (onto right [])))

distance-cost : (left right : Str) (n : ℕ) → Script left right n → distance left right ≤ n
distance-cost left right n s =
    let reversed : List Edit = onto s.script [] in
    let starts : source reversed ≡ onto left [] =
      source-onto s.script [] ∙ ap (λ t. onto t []) s.from_left in
    let ends : target reversed ≡ onto right [] =
      target-onto s.script [] ∙ ap (λ t. onto t []) s.to_right in
    let same : distance left right ≡ lev (source reversed) (target reversed) =
      distance-lev left right ∙ rw (starts, ends) refl in
    omega (arith, same, lev-cost reversed, cost-onto s.script [], s.costs)

-- The result of edit_distance is the cost of an edit script from the one text to the other, where an
-- insertion, a deletion and a change cost 1 and a kept character nothing, and no script from the one
-- to the other costs less.
pub edit_distance-least :
    (left right : Str) (n : ℕ)
    → Script left right n
    → Script left right (edit_distance left right) × (edit_distance left right ≤ n)
unfolding edit_distance
edit_distance-least left right n s = elim (Bool-cases (ltb (length left) (length right))) [
  | inl shorter ↦ rw shorter (
    flipped left right (distance right left) (distance-Script right left),
    distance-cost right left n (flipped right left n s),
  )
  | inr longer ↦ rw longer (distance-Script left right, distance-cost left right n s)
]
