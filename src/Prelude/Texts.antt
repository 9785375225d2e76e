-- ===== src/Prelude/Texts.antt =====
-- Texts: the equality test with its laws, and the parts of Python's `str` that the code uses.
pub use text.Mathlib.Text.{◌==◌ as str_eq}
pub use text.Mathlib.TextEquality.{eq_iff}
pub use text.Mathlib.TextPositions.{eq_refl}
use text.Mathlib.Text.{◌==◌ as str_eq}
use Prim.Native.Nat.{ℕ, zero, suc, ◌+◌, ◌-◌, ◌/◌, ◌%◌}
use mathlib.Core.Option.{Option, none, some}
use mathlib.Core.List.{List, [], ◌∷◌}
use Prim.Native.Char.{Char, char, code}
use Prim.Native.String.{String, count, ◌++◌}
use mathlib.Core.Bool.{Bool, true, false, ◌||◌, ◌&&◌}
use nervum.Prelude.Tests.{leb, ltb, ◌==◌, if◌then◌else◌}

-- The ASCII characters that `str.strip` and `str.split` treat as white space.
abbrev pub is_space : ℕ → Bool
is_space c = c == 32 || (leb 9 c && leb c 13) || (leb 28 c && leb c 31)

-- `s.strip() == ""`: nothing but white space.
abbrev pub is_blank : String → Bool
is_blank String.[] = true
is_blank (String.◌∷◌ c s) = is_space (code c) && is_blank s

-- `not s`
abbrev pub is_empty : String → Bool
is_empty String.[] = true
is_empty (String.◌∷◌ _ _) = false

-- `s[-n:]`
drop_chars : ℕ → String → String
drop_chars zero s = s
drop_chars (suc n) String.[] = String.[]
drop_chars (suc n) (String.◌∷◌ _ s) = drop_chars n s

unfoldable pub last_chars : ℕ → String → String
unfolding drop_chars
last_chars n s = drop_chars (count s - n) s

digit : ℕ → Char
digit zero = char 48 tt
digit (suc zero) = char 49 tt
digit (suc (suc zero)) = char 50 tt
digit (suc (suc (suc zero))) = char 51 tt
digit (suc (suc (suc (suc zero)))) = char 52 tt
digit (suc (suc (suc (suc (suc zero))))) = char 53 tt
digit (suc (suc (suc (suc (suc (suc zero)))))) = char 54 tt
digit (suc (suc (suc (suc (suc (suc (suc zero))))))) = char 55 tt
digit (suc (suc (suc (suc (suc (suc (suc (suc zero)))))))) = char 56 tt
digit _ = char 57 tt

digits_from : ℕ → ℕ → String → String
digits_from zero n acc = acc
digits_from (suc fuel) n acc =
    let longer = String.◌∷◌ (digit (n % 10)) acc in
    let rest = digits_from fuel (n / 10) longer in if ltb n 10 then longer else rest

-- `str(n)`: n + 1 rounds are enough, since each drops a digit
unfoldable pub decimal : ℕ → String
unfolding digits_from digit
decimal n = digits_from (n + 1) n String.[]

infixr 65 ◌+++◌
-- Texts one after the other, as in an f-string.
abbrev pub ◌+++◌ : String → String → String
s +++ t = s ++ t

-- `a == b` on optional texts and numbers
abbrev pub opt_str_eq : Option String → Option String → Bool
opt_str_eq none none = true
opt_str_eq none (some _) = false
opt_str_eq (some _) none = false
opt_str_eq (some s) (some t) = str_eq s t

abbrev pub opt_eq : Option ℕ → Option ℕ → Bool
opt_eq none none = true
opt_eq none (some _) = false
opt_eq (some _) none = false
opt_eq (some m) (some n) = m == n

abbrev pub strs_eq : List String → List String → Bool
strs_eq [] [] = true
strs_eq [] (_ ∷ _) = false
strs_eq (_ ∷ _) [] = false
strs_eq (s ∷ ss) (t ∷ ts) = str_eq s t && strs_eq ss ts

abbrev pub nats_eq : List ℕ → List ℕ → Bool
nats_eq [] [] = true
nats_eq [] (_ ∷ _) = false
nats_eq (_ ∷ _) [] = false
nats_eq (m ∷ ms) (n ∷ ns) = m == n && nats_eq ms ns

-- `s.lstrip()`
lstrip : String → String
lstrip String.[] = String.[]
lstrip (String.◌∷◌ c s) = let rest = lstrip s in if is_space (code c) then rest else String.◌∷◌ c s

-- `s.rstrip()`
rstrip : String → String
rstrip String.[] = String.[]
rstrip (String.◌∷◌ c s) =
    let rest = rstrip s in if is_blank s && is_space (code c) then String.[] else String.◌∷◌ c rest

-- `s.strip()`
unfoldable pub strip : String → String
unfolding lstrip rstrip
strip s = rstrip (lstrip s)
