-- ===== src/Prelude/Dicts.antt =====
-- Python's `dict` with string keys, in insertion order, and `set` of strings as a list.
use Prim.Native.Nat.{ℕ, suc, ◌+◌, ◌≤◌}
use mathlib.Core.Path.{◌≡◌, refl}
use mathlib.Core.Logic.{◌⊎◌}
use mathlib.Core.Bool.{Bool, true, false}
use mathlib.Core.Option.{Option, none, some}
use mathlib.Core.List.{List, [], ◌∷◌, ◌++◌}
use native.Mathlib.Omega.{arith}
use vehicle_intelligence.Prelude.Tests.{if◌then◌else◌, is_some}
use vehicle_intelligence.Prelude.Text.{Str, ◌==◌, eq_iff, eq_refl}

abbrev pub Dict {ℓ} : Type ℓ → Type ℓ
Dict V = List (Str × V)

-- `x in xs`
abbrev pub member : Str → List Str → Bool
member x [] = false
member x (y ∷ ys) = let rest = member x ys in if x == y then true else rest

-- [y for y in ys if y != x], set.discard(x)
abbrev pub discard : Str → List Str → List Str
discard x [] = []
discard x (y ∷ ys) = let rest = discard x ys in if x == y then rest else y ∷ rest

module _ {ℓ} {V : Type ℓ} where
  -- d.get(k)
  abbrev pub get : Dict V → Str → Option V
  get [] k = none
  get ((j, v) ∷ d) k = let rest = get d k in if j == k then some v else rest

  -- d[k] = v
  abbrev pub put : Dict V → Str → V → Dict V
  put [] k v = (k, v) ∷ []
  put ((j, w) ∷ d) k v = let rest = put d k v in if j == k then (j, v) ∷ d else (j, w) ∷ rest

  -- d.pop(k, None), for the dict that is left
  abbrev pub pop : Dict V → Str → Dict V
  pop [] k = []
  pop ((j, w) ∷ d) k = let rest = pop d k in if j == k then rest else (j, w) ∷ rest

  -- `k in d`
  abbrev pub contains : Dict V → Str → Bool
  contains d k = is_some (get d k)

  -- d.values()
  abbrev pub values : Dict V → List V
  values [] = []
  values ((j, v) ∷ d) = v ∷ values d

  abbrev pub size : Dict V → ℕ
  size [] = 0
  size ((j, v) ∷ d) = suc (size d)

  -- sum(f(v) for v in d.values())
  abbrev pub total : (V → ℕ) → Dict V → ℕ
  total f [] = 0
  total f ((j, v) ∷ d) = f v + total f d

  -- what an entry adds to the total, if it is there
  abbrev pub worth : (V → ℕ) → Option V → ℕ
  worth f none = 0
  worth f (some v) = f v

  -- No key occurs twice.
  abbrev pub IsDistinct : Dict V → Type ℓ
  IsDistinct [] = Unit
  IsDistinct ((j, v) ∷ d) = (get d j ≡ none) × IsDistinct d

  pub get-put :
      (d : Dict V) (k j : Str) (v : V) → get (put d k v) j ≡ (if k == j then some v else get d j)
  get-put [] k j v = refl
  get-put ((i, w) ∷ d) k j v = ground (arith, eq_iff k j, eq_iff i k, eq_iff i j, get-put d k j v)

  -- An entry of d after d[k] = v is the new one or was there.
  pub put-cases :
      (d : Dict V) (k : Str) (v : V) (j : Str) (w : V)
      → get (put d k v) j ≡ some w
      → ((k ≡ j) × (v ≡ w)) ⊎ (get d j ≡ some w)
  put-cases d k v j w h = ground (arith, get-put d k j v, eq_iff k j)

  pub get-put_self : (d : Dict V) (k : Str) (v : V) → get (put d k v) k ≡ some v
  get-put_self d k v = rw (get-put d k k v, eq_refl k)

  pub get-pop : (d : Dict V) (k j : Str) → get (pop d k) j ≡ (if k == j then none else get d j)
  get-pop [] k j = ground arith
  get-pop ((i, w) ∷ d) k j = ground (arith, eq_iff k j, eq_iff i k, eq_iff i j, get-pop d k j)

  pub pop-kept : (d : Dict V) (k j : Str) (w : V) → get (pop d k) j ≡ some w → get d j ≡ some w
  pop-kept d k j w h = ground (arith, get-pop d k j)

  pub put-IsDistinct : (d : Dict V) (k : Str) (v : V) → IsDistinct d → IsDistinct (put d k v)
  put-IsDistinct [] k v h = (refl, tt)
  put-IsDistinct ((i, w) ∷ d) k v h =
      ground (arith, eq_iff i k, eq_iff k i, get-put d k i v, put-IsDistinct d k v)

  pub pop-IsDistinct : (d : Dict V) (k : Str) → IsDistinct d → IsDistinct (pop d k)
  pop-IsDistinct [] k h = tt
  pop-IsDistinct ((i, w) ∷ d) k h = ground (arith, get-pop d k i, pop-IsDistinct d k)

  pub size-put :
      (d : Dict V) (k : Str) (v : V)
      → size (put d k v) ≡ (if contains d k then size d else size d + 1)
  size-put [] k v = omega arith
  size-put ((i, w) ∷ d) k v = ground (arith, size-put d k v)

  pub size-pop : (d : Dict V) (k : Str) → size (pop d k) ≤ size d
  size-pop [] k = omega arith
  size-pop ((i, w) ∷ d) k = ground (arith, size-pop d k)

  -- A replaced value leaves the total, and the new one enters it.
  pub total-put :
      (f : V → ℕ) (d : Dict V) (k : Str) (v : V)
      → total f (put d k v) + worth f (get d k) ≡ total f d + f v
  total-put f [] k v = omega arith
  total-put f ((i, w) ∷ d) k v = ground (arith, total-put f d k v)

  pop_absent : (d : Dict V) (k : Str) → get d k ≡ none → pop d k ≡ d
  pop_absent [] k h = refl
  pop_absent ((i, w) ∷ d) k h = ground (arith, pop_absent d k)

  pub total-pop :
      (f : V → ℕ) (d : Dict V) (k : Str)
      → IsDistinct d
      → total f (pop d k) + worth f (get d k) ≡ total f d
  total-pop f [] k u = omega arith
  total-pop f ((i, w) ∷ d) k u = ground (arith, eq_iff i k, pop_absent d k, total-pop f d k)

pub member-append :
    (x : Str) (ys : List Str) (y : Str)
    → member x (ys ++ y ∷ []) ≡ (if x == y then true else member x ys)
member-append x [] y = ground arith
member-append x (z ∷ ys) y = ground (arith, member-append x ys y)

pub member-discard :
    (x y : Str) (ys : List Str) → member y (discard x ys) ≡ (if x == y then false else member y ys)
member-discard x y [] = ground arith
member-discard x y (z ∷ ys) =
    ground (arith, eq_iff x z, eq_iff x y, eq_iff y z, member-discard x y ys)

-- No text occurs twice.
abbrev pub IsUnique : List Str → Type 0
IsUnique [] = Unit
IsUnique (x ∷ xs) = (member x xs ≡ false) × IsUnique xs

pub IsUnique-append :
    (xs : List Str) (y : Str) → IsUnique xs → member y xs ≡ false → IsUnique (xs ++ y ∷ [])
IsUnique-append [] y u h = (refl, tt)
IsUnique-append (x ∷ xs) y u h =
    ground (arith, eq_iff x y, eq_refl y, member-append x xs y, IsUnique-append xs y)

pub IsUnique-discard : (x : Str) (ys : List Str) → IsUnique ys → IsUnique (discard x ys)
IsUnique-discard x [] u = tt
IsUnique-discard x (y ∷ ys) u = ground (arith, member-discard x y ys, IsUnique-discard x ys)

pub ruleset dict_laws = (get-put, get-pop)
