-- ===== src/Prelude/Names.antt =====
-- Sets of strings, and the pattern of the names that the program accepts.
use Prim.Native.Char.{Char, code}
use Prim.Native.String.{String}
use mathlib.Core.Bool.{Bool, true, false, not, ◌&&◌, ◌||◌}
use mathlib.Core.List.{List, [], ◌∷◌}
use mathlib.Core.Logic.{◌≢◌, inl, inr}
use mathlib.Core.Path.{◌≡◌, sym}
use native.Mathlib.Omega.{arith}
use text.Mathlib.Text.{starts_with}
use smith.Prelude.Lists.{Elem}
use smith.Prelude.Tests.{Bool-cases, eqb, leb}
use smith.Prelude.Text.{◌==◌, eq_iff}

-- A Go set of strings, `map[string]bool`, as the list of its members.
unfoldable pub contains : List String → String → Bool
contains [] a = false
contains (x ∷ xs) a = x == a || contains xs a

pub contains-Elem : (xs : List String) (a : String) → contains xs a ≡ true → Elem a xs
unfolding contains
contains-Elem [] a h = absurd (clash h)
  where
    clash : false ≡ true → ⊥
    clash e = cc
contains-Elem (x ∷ xs) a h = elim (Bool-cases (x == a)) [
  | inl e ↦ inl (sym ((eq_iff x a).0 e))
  | inr e ↦ inr (contains-Elem xs a (rw e at h))
]

pub Elem-contains : (xs : List String) (a : String) → Elem a xs → contains xs a ≡ true
unfolding contains
Elem-contains [] a h = absurd h
Elem-contains (x ∷ xs) a (inl e) = ground (arith, eq_iff x a)
Elem-contains (x ∷ xs) a (inr i) = ground (arith, Elem-contains xs a i)

pub ne_false : (s t : String) → s ≢ t → (s == t) ≡ false
ne_false s t h = elim (Bool-cases (s == t)) [
  | inl same ↦ absurd (h ((eq_iff s t).0 same))
  | inr apart ↦ apart
]

-- `^[a-z0-9-]+$`
abbrev name_char : Char → Bool
name_char c =
    let n = code c in (leb b'a' n && leb n b'z') || (leb b'0' n && leb n b'9') || eqb n b'-'

unfoldable pub name_chars : String → Bool
name_chars String.[] = true
name_chars (String.◌∷◌ c s) = name_char c && name_chars s

-- `nameRe.MatchString`, and `volumeNameRe.MatchString`
unfoldable pub matches_name : String → Bool
unfolding name_chars
matches_name s = not (s == "") && name_chars s

-- `strings.HasPrefix(path, "/")`
abbrev pub is_absolute : String → Bool
is_absolute path = starts_with path "/"
