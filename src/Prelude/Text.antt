-- ===== src/Prelude/Text.antt =====
-- Python's `str` as its list of code points.
use Prim.Native.Nat.{ℕ}
use Prim.Native.Char.{code}
use Prim.Native.String.{String}
use mathlib.Core.Path.{◌≡◌, refl}
use mathlib.Core.Logic.{◌↔◌}
use mathlib.Core.Bool.{Bool, true, false, ◌&&◌, ◌||◌}
use mathlib.Core.List.{List, [], ◌∷◌}
use native.Mathlib.Omega.{arith}
use vehicle_intelligence.Prelude.Tests.{eqb, leb, if◌then◌else◌}

abbrev pub Str : Type 0
Str = List ℕ

-- A literal of the source.
abbrev pub codes : String → Str
codes String.[] = []
codes (String.◌∷◌ c s) = code c ∷ codes s

infix 50 ◌==◌
unfoldable pub ◌==◌ : Str → Str → Bool
[] == [] = true
[] == (y ∷ ys) = false
(x ∷ xs) == [] = false
(x ∷ xs) == (y ∷ ys) = let rest = xs == ys in if eqb x y then rest else false

-- `not s`
abbrev pub is_empty : Str → Bool
is_empty [] = true
is_empty (_ ∷ _) = false

eq_true : (s t : Str) → (s == t) ≡ true → s ≡ t
unfolding ◌==◌
eq_true [] [] h = refl
eq_true [] (y ∷ t) h = ground arith
eq_true (x ∷ s) [] h = ground arith
eq_true (x ∷ s) (y ∷ t) h = ground (arith, eq_true s t)

pub eq_refl : (s : Str) → (s == s) ≡ true
unfolding ◌==◌
eq_refl [] = refl
eq_refl (x ∷ s) = ground (arith, eq_refl s)

pub eq_iff : (s t : Str) → ((s == t) ≡ true) ↔ (s ≡ t)
eq_iff s t = (eq_true s t, λ e. rw e (eq_refl t))

-- the code points for which `str.isspace` holds
is_space : ℕ → Bool
is_space c =
    (leb 9 c && leb c 13)
    || (leb 28 c && leb c 32)
    || eqb c 133
    || eqb c 160
    || eqb c 5760
    || (leb 8192 c && leb c 8202)
    || eqb c 8232
    || eqb c 8233
    || eqb c 8239
    || eqb c 8287
    || eqb c 12288

strip_left : Str → Str
strip_left [] = []
strip_left (c ∷ s) = let rest = strip_left s in if is_space c then rest else c ∷ s

strip_right : Str → Str
strip_right [] = []
strip_right (c ∷ s) =
    let rest = strip_right s in if is_empty rest && is_space c then [] else c ∷ rest

-- str.strip()
unfoldable pub strip : Str → Str
unfolding strip_left strip_right is_space
strip s = strip_right (strip_left s)
