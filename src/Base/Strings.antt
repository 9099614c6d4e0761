-- ===== src/Base/Strings.antt =====
-- Strings as the lists of their UTF-16 code units, compared and ordered as `===` and `<` do.
use Prim.Native.Char.{code}
use Prim.Native.Nat.{ℕ}
use Prim.Native.String.{String}
use mathlib.Core.Path.{◌≡◌, refl}
use mathlib.Core.Logic.{◌↔◌}
use mathlib.Core.Bool.{Bool, true, false, ◌&&◌, ◌||◌}
use mathlib.Core.List.{List, [], ◌∷◌, ◌++◌}
use native.Mathlib.Omega.{arith}
use hushvault.Base.Lists.{All}
use hushvault.Base.Tests.{◌==◌, ltb}

abbrev pub Text : Type 0
Text = List ℕ

-- The code units of an ASCII literal.
abbrev pub codes : String → Text
codes String.[] = []
codes (String.◌∷◌ c s) = code c ∷ codes s

unfoldable pub same : Text → Text → Bool
same [] [] = true
same [] (_ ∷ _) = false
same (_ ∷ _) [] = false
same (a ∷ s) (b ∷ t) = a == b && same s t

pub same_iff : (s t : Text) → (same s t ≡ true) ↔ (s ≡ t)
unfolding same
same_iff [] [] = ground arith
same_iff [] (_ ∷ _) = ground arith
same_iff (_ ∷ _) [] = ground arith
same_iff (a ∷ s) (b ∷ t) = ground (arith, same_iff s t)

pub same_refl : (s : Text) → same s s ≡ true
same_refl s = (same_iff s s).1 refl

-- `s < t`.
unfoldable pub less : Text → Text → Bool
less [] [] = false
less [] (_ ∷ _) = true
less (_ ∷ _) [] = false
less (a ∷ s) (b ∷ t) = ltb a b || (a == b && less s t)

-- Whether a set of names holds one.
unfoldable pub has : List Text → Text → Bool
has [] s = false
has (t ∷ ts) s = same t s || has ts s

pub has-append : (ts us : List Text) (s : Text) → has (ts ++ us) s ≡ (has ts s || has us s)
unfolding has
has-append [] us s = refl
has-append (t ∷ ts) us s = ground (arith, has-append ts us s)

-- What holds of each item of a set holds of all of them.
pub All-of_has {ℓ} :
    (P : Text → Type ℓ) (ts : List Text) → ((t : Text) → has ts t ≡ true → P t) → All P ts
unfolding has
All-of_has P [] h = tt
All-of_has P (t ∷ ts) h =
    (h t (ground (arith, same_refl t)), All-of_has P ts (λ s e. h s (ground arith)))

unfoldable pub starts_with : Text → Text → Bool
starts_with [] s = true
starts_with (c ∷ p) [] = false
starts_with (c ∷ p) (d ∷ s) = c == d && starts_with p s

-- What is left of a text behind a prefix.
unfoldable pub after : Text → Text → Text
after [] s = s
after (c ∷ p) [] = []
after (c ∷ p) (d ∷ s) = after p s

pub starts_with-append : (p s : Text) → starts_with p (p ++ s) ≡ true
unfolding starts_with
starts_with-append [] s = refl
starts_with-append (c ∷ p) s = ground (arith, starts_with-append p s)

pub after-append : (p s : Text) → after p (p ++ s) ≡ s
unfolding after
after-append [] s = refl
after-append (c ∷ p) s = after-append p s
