-- ===== src/Common/Substrings.antt =====
-- The tests of Python's `in`, `startswith` and `endswith` on texts, and `join`.
use mathlib.Core.Path.{◌≡◌, refl}
use mathlib.Core.Bool.{Bool, true, false, ◌&&◌, ◌||◌}
use mathlib.Core.List.{List, [], ◌∷◌, ◌++◌, reverse}
use native.Mathlib.Omega.{arith}
use agent_exec_platform.Common.Tests.{◌==◌, ==_iff}
use agent_exec_platform.Common.Texts.{Text}

unfoldable pub starts_with : Text → Text → Bool
starts_with [] s = true
starts_with (a ∷ p) [] = false
starts_with (a ∷ p) (b ∷ s) = (a == b) && starts_with p s

unfoldable pub ends_with : Text → Text → Bool
unfolding starts_with
ends_with p s = starts_with (reverse p) (reverse s)

-- p in s
unfoldable pub is_substring : Text → Text → Bool
unfolding starts_with
is_substring p [] = starts_with p []
is_substring p (c ∷ s) = starts_with p (c ∷ s) || is_substring p s

-- separator.join(parts)
unfoldable pub join : Text → List Text → Text
join separator [] = []
join separator (s ∷ []) = s
join separator (s ∷ t ∷ parts) = s ++ separator ++ join separator (t ∷ parts)

pub starts_with-append : (p s : Text) → starts_with p (p ++ s) ≡ true
unfolding starts_with
starts_with-append [] s = refl
starts_with-append (a ∷ p) s = ground (arith, starts_with-append p s, ==_iff a a)

pub is_substring-append : (a p s : Text) → is_substring p (a ++ p ++ s) ≡ true
unfolding is_substring
is_substring-append [] [] [] = refl
is_substring-append [] [] (c ∷ s) = ground (arith, starts_with-append [] (c ∷ s))
is_substring-append [] (c ∷ p) s = ground (arith, starts_with-append (c ∷ p) s)
is_substring-append (c ∷ a) p s = ground (arith, is_substring-append a p s)
