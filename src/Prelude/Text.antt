-- ===== src/Prelude/Text.antt =====
-- Texts: equality as `str_eq`, membership in a literal list of texts, and the prefix operations
-- that the program takes from Rust's `str`.
use Prim.Native.Char.{Char, code}
use Prim.Native.String
use Prim.Native.String.{String}
use mathlib.Core.Path.{◌≡◌, refl}
use mathlib.Core.Bool.{Bool, true, false, ◌&&◌, ◌||◌}
use mathlib.Core.List.{List, [], ◌∷◌, ◌++◌}
use mathlib.Core.Logic.{ite, if_pos, inl, inr}
use mathlib.Core.Option.{Option, none, some}
use aigis_zero.Prelude.Options.{is_some}
use native.Mathlib.Decide.{ℕ_discrete}
use native.Mathlib.Omega.{arith}
use text.Mathlib.TextEquality.{eq_iff}
use text.Mathlib.TextLemmas.{nil-append, cons-append}
use text.Mathlib.TextPositions.{eq_refl}
use aigis_zero.Prelude.Tests.{Bool-cases, &&-eq-true, if◌then◌else◌, ltb, leb, ◌==◌}
use Prim.Native.Nat.{ℕ, zero, suc, ◌+◌, ◌/◌, ◌%◌}
pub use text.Mathlib.Text.{◌==◌ as str_eq}

infixr 30 ◌<>◌
abbrev pub ◌<>◌ : String → String → String
s <> t = String.◌++◌ s t

-- A `match` arm `"a" | "b" | … =>`: whether the text is one of the listed literals.
unfoldable pub one_of : List String → String → Bool
one_of [] s = false
one_of (x ∷ xs) s = str_eq x s || one_of xs s

-- Every literal of the first list is in the second.
unfoldable pub all_one_of : List String → List String → Bool
all_one_of [] ys = true
all_one_of (x ∷ xs) ys = one_of ys x && all_one_of xs ys

pub one_of_mono :
    (xs ys : List String) (s : String)
    → all_one_of xs ys ≡ true
    → one_of xs s ≡ true
    → one_of ys s ≡ true
unfolding one_of all_one_of
one_of_mono [] ys s h e = cc
one_of_mono (x ∷ xs) ys s h e =
    let (here, later) = &&-eq-true (one_of ys x) (all_one_of xs ys) h in
    elim (Bool-cases (str_eq x s)) [
      | inl same ↦ rw ((eq_iff x s).0 same) at here
      | inr other ↦ one_of_mono xs ys s later (rw other at e)
    ]

-- Two lists of the same literals, in any order, accept the same texts.
pub one_of-congr :
    (xs ys : List String) (s : String)
    → all_one_of xs ys ≡ true
    → all_one_of ys xs ≡ true
    → one_of xs s ≡ one_of ys s
one_of-congr xs ys s h k = elim (Bool-cases (one_of xs s)) [
  | inl e ↦ ground (arith, one_of_mono xs ys s h e)
  | inr e ↦ elim (Bool-cases (one_of ys s)) [
    | inl e' ↦ ground (arith, one_of_mono ys xs s k e')
    | inr e' ↦ ground arith
  ]
]

-- Rust's `strip_prefix`, walking both texts.
unfoldable pub strip_prefix : String → String → Option String
strip_prefix String.[] s = some s
strip_prefix (String.◌∷◌ c p) String.[] = none
strip_prefix (String.◌∷◌ c p) (String.◌∷◌ d s) =
    ite (ℕ_discrete (code c) (code d)) (strip_prefix p s) none

-- `strip_prefix` takes off exactly the prefix that was put on.
pub strip_prefix-append : (p s : String) → strip_prefix p (String.◌++◌ p s) ≡ some s
unfolding strip_prefix
strip_prefix-append String.[] s = rw nil-append refl
strip_prefix-append (String.◌∷◌ c p) s =
    rw (cons-append, if_pos (ℕ_discrete (code c) (code c)) refl) (strip_prefix-append p s)

pub str_eq_refl : (s : String) → str_eq s s ≡ true
str_eq_refl s = eq_refl s

-- `HashMap<String, V>::get` on the map's entries.
unfoldable pub lookup {ℓ} : {V : Type ℓ} → String → List (String × V) → Option V
lookup k [] = none
lookup k ((j, v) ∷ m) = if str_eq j k then some v else lookup k m

-- The UTF-8 bytes of a code point, and of a text (`str::as_bytes`).
abbrev pub utf8 : ℕ → List ℕ
utf8 c =
    if ltb c 0x80
    then c ∷ []
    else if ltb c 0x800
    then (0xc0 + c / 64) ∷ (0x80 + c % 64) ∷ []
    else if ltb c 0x10000
    then (0xe0 + c / 4096) ∷ (0x80 + c / 64 % 64) ∷ (0x80 + c % 64) ∷ []
    else (0xf0 + c / 262144) ∷ (0x80 + c / 4096 % 64) ∷ (0x80 + c / 64 % 64) ∷ (0x80 + c % 64) ∷ []

unfoldable pub as_bytes : String → List ℕ
as_bytes String.[] = []
as_bytes (String.◌∷◌ c s) = utf8 (code c) ++ as_bytes s

-- The code points of a text, with ASCII capitals lowered.
abbrev pub lowered : String → List ℕ
lowered String.[] = []
lowered (String.◌∷◌ c s) =
    (if leb b'A' (code c) && leb (code c) b'Z' then code c + 32 else code c) ∷ lowered s

abbrev pub list_eq : List ℕ → List ℕ → Bool
list_eq [] [] = true
list_eq [] (y ∷ ys) = false
list_eq (x ∷ xs) [] = false
list_eq (x ∷ xs) (y ∷ ys) = x == y && list_eq xs ys

-- `s.to_lowercase() == lit`, for a literal of ASCII letters without "k": no other character lowers
-- to one of these.
abbrev pub lower_eq : String → String → Bool
lower_eq s lit = list_eq (lowered s) (lowered lit)

abbrev pub digit : ℕ → String
digit d =
    if d == 0
    then "0"
    else if d == 1
    then "1"
    else if d == 2
    then "2"
    else if d == 3
    then "3"
    else if d == 4
    then "4"
    else if d == 5
    then "5"
    else if d == 6
    then "6"
    else if d == 7
    then "7"
    else if d == 8
    then "8"
    else "9"

-- The decimal digits of a number, on fuel that its value exceeds.
unfoldable pub decimal_from : ℕ → ℕ → String
decimal_from zero n = ""
decimal_from (suc fuel) n =
    let higher = String.◌++◌ (decimal_from fuel (n / 10)) (digit (n % 10)) in
    if ltb n 10 then digit n else higher

-- `to_string` of a number.
unfoldable pub to_string : ℕ → String
unfolding decimal_from
to_string n = decimal_from (suc n) n

-- Unicode's `White_Space`.
abbrev pub is_whitespace : ℕ → Bool
is_whitespace c =
    (leb 9 c && leb c 13)
    || (c == 32)
    || (c == 0x85)
    || (c == 0xa0)
    || (c == 0x1680)
    || (leb 0x2000 c && leb c 0x200a)
    || (c == 0x2028)
    || (c == 0x2029)
    || (c == 0x202f)
    || (c == 0x205f)
    || (c == 0x3000)

-- `trim_start_matches` and `trim_end_matches` for a test on characters.
unfoldable pub trim_start_by : (ℕ → Bool) → String → String
trim_start_by test String.[] = String.[]
trim_start_by test (String.◌∷◌ c s) =
    let rest = trim_start_by test s in if test (code c) then rest else String.◌∷◌ c s

-- The character in front, unless it is one of the trailing ones.
abbrev pub before_trimmed : Bool → String → String → String
before_trimmed drops String.[] s = if drops then String.[] else s
before_trimmed drops (String.◌∷◌ d rest) s = s

unfoldable pub trim_end_by : (ℕ → Bool) → String → String
trim_end_by test String.[] = String.[]
trim_end_by test (String.◌∷◌ c s) =
    let rest = trim_end_by test s in before_trimmed (test (code c)) rest (String.◌∷◌ c rest)

-- `trim`
unfoldable pub trim : String → String
trim s = trim_end_by is_whitespace (trim_start_by is_whitespace s)

-- A character in front of the first part.
abbrev pub to_first : Char → List String → List String
to_first c [] = String.◌∷◌ c String.[] ∷ []
to_first c (p ∷ ps) = String.◌∷◌ c p ∷ ps

-- `split` at a character; there is always a part.
unfoldable pub split : ℕ → String → List String
split at String.[] = String.[] ∷ []
split at (String.◌∷◌ c s) =
    let rest = split at s in if code c == at then String.[] ∷ rest else to_first c rest

-- `str::contains`
unfoldable pub contains : String → String → Bool
contains needle String.[] = is_some (strip_prefix needle String.[])
contains needle (String.◌∷◌ c s) =
    is_some (strip_prefix needle (String.◌∷◌ c s)) || contains needle s
