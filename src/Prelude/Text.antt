-- ===== src/Prelude/Text.antt =====
-- Go's strings as lists of bytes, with what the program uses of the package `strings`.
use Prim.Native.Char.{code}
use Prim.Native.String.{String}
use Prim.Native.Nat.{ℕ, suc, ◌-◌}
use mathlib.Core.Path.{◌≡◌, refl}
use mathlib.Core.Bool.{Bool, true, false, ◌&&◌}
use mathlib.Core.List.{List, [], ◌∷◌, ◌++◌}
use mathlib.Core.Option
use mathlib.Core.Option.{Option, none, some}
use native.Mathlib.Omega.{arith}
use gomm.Prelude.Tests.{if◌then◌else◌, nat_beq, leb}
use gomm.Prelude.Lists.{length, drop}
use gomm.Prelude.Equality.{bytes_beq}

abbrev pub Bytes : Type 0
Bytes = List ℕ

-- The bytes of an ASCII literal.
abbrev pub codes : String → Bytes
codes String.[] = []
codes (String.◌∷◌ c s) = code c ∷ codes s

-- strings.HasPrefix, the prefix first.
unfoldable pub has_prefix : Bytes → Bytes → Bool
has_prefix [] s = true
has_prefix (p ∷ ps) [] = false
has_prefix (p ∷ ps) (c ∷ cs) = nat_beq p c && has_prefix ps cs

-- strings.HasSuffix, the suffix first.
unfoldable pub has_suffix : Bytes → Bytes → Bool
has_suffix p s = leb (length p) (length s) && bytes_beq (drop (length s - length p) s) p

-- strings.Index, the pattern first: the first place where it stands.
unfoldable pub index : Bytes → Bytes → Option ℕ
index p [] = if has_prefix p [] then some 0 else none
index p (c ∷ cs) =
    let rest = Option.map suc (index p cs) in if has_prefix p (c ∷ cs) then some 0 else rest

pub has_prefix-append : (p s : Bytes) → has_prefix p (p ++ s) ≡ true
unfolding has_prefix
has_prefix-append [] s = refl
has_prefix-append (c ∷ cs) s = ground (arith, has_prefix-append cs s)
