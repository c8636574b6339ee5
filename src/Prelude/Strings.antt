-- ===== src/Prelude/Strings.antt =====
-- Text as a list of code units, so that the program's loops over text can be written out.
-- A literal is read by `text`; every literal of the source that is modelled is ASCII, for which
-- code units, code points and bytes are the same.
use Prim.Native.Nat.{ℕ}
use Prim.Native.Char.{code}
use Prim.Native.String.{String}
use mathlib.Core.Path.{◌≡◌, refl}
use mathlib.Core.Logic.{◌↔◌}
use mathlib.Core.Bool.{Bool, true, false, ◌&&◌, ◌||◌}
use mathlib.Core.List.{List, [], ◌∷◌, ◌++◌, reverse}
use native.Mathlib.Omega.{arith}
use agent_fs.Prelude.Tests.{◌==◌, leb, if◌then◌else◌}

abbrev pub Text : Type 0
Text = List ℕ

abbrev pub text : String → Text
text String.[] = []
text (String.◌∷◌ c s) = code c ∷ text s

-- JavaScript's `===` on strings, and `=` of SQL.
infix 50 ◌===◌
unfoldable pub ◌===◌ : Text → Text → Bool
[] === [] = true
[] === (b ∷ t) = false
(a ∷ s) === [] = false
(a ∷ s) === (b ∷ t) = a == b && s === t

pub eq_of_=== : (s t : Text) → s === t ≡ true → s ≡ t
unfolding ◌===◌
eq_of_=== [] [] h = refl
eq_of_=== [] (b ∷ t) h = ground arith
eq_of_=== (a ∷ s) [] h = ground arith
eq_of_=== (a ∷ s) (b ∷ t) h = ground (arith, eq_of_=== s t)

pub ===_refl : (s : Text) → s === s ≡ true
unfolding ◌===◌
===_refl [] = refl
===_refl (a ∷ s) = ground (arith, ===_refl s)

pub ===_iff : (s t : Text) → (s === t ≡ true) ↔ (s ≡ t)
===_iff s t = (eq_of_=== s t, λ e. rw e (===_refl t))

pub differ_sym : (s t : Text) → s === t ≡ false → t === s ≡ false
differ_sym s t h = ground (arith, ===_iff s t, ===_iff t s)

-- `s.startsWith(p)`
unfoldable pub starts_with : Text → Text → Bool
starts_with s [] = true
starts_with [] (c ∷ p) = false
starts_with (d ∷ s) (c ∷ p) = d == c && starts_with s p

pub starts_with-append : (p s : Text) → starts_with (p ++ s) p ≡ true
unfolding starts_with
starts_with-append [] [] = refl
starts_with-append [] (a ∷ s) = refl
starts_with-append (c ∷ p) s = ground (arith, starts_with-append p s)

-- the white space that `trim` strips, of ASCII
abbrev is_space : ℕ → Bool
is_space c = c == b' ' || (leb 9 c && leb c 13)

abbrev trim_start : Text → Text
trim_start [] = []
trim_start (c ∷ s) = let rest = trim_start s in if is_space c then rest else c ∷ s

-- `String.prototype.trim` on ASCII
abbrev pub trim : Text → Text
trim s = reverse (trim_start (reverse (trim_start s)))
