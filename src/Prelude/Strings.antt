-- ===== src/Prelude/Strings.antt =====
-- C strings. A `const char*` is the list of its bytes before the terminator, so the byte read at
-- the end of the list is 0. Also the parts of <ctype.h> and <string.h> that the program calls,
-- in the "C" locale.
use Prim.Native.Nat.{ℕ, ◌+◌, ◌-◌, ◌≤◌, ◌<◌}
use Prim.Native.Char.{code}
use Prim.Native.String.{String}
use mathlib.Core.Path.{◌≡◌, refl, ap}
use mathlib.Core.Logic.{◌↔◌, inl, inr}
use mathlib.Core.Bool.{Bool, true, false, ◌&&◌, ◌||◌}
use mathlib.Core.List.{List, [], ◌∷◌, ◌++◌}
use mathlib.Core.Logic.{◌≢◌}
use mathlib.Core.Option.{Option, none, some}
use native.Mathlib.Omega.{arith}
use ps4rpi.Prelude.Tests.{leb, ◌==◌, ==_iff, Bool-cases, Option-cases, if◌then◌else◌}
use ps4rpi.Prelude.Lists.{All, take, length, length-append}

abbrev pub Bytes : Type 0
Bytes = List ℕ

-- the code points of a literal, which are its bytes, every literal here being ASCII
abbrev pub codes : String → Bytes
codes String.[] = []
codes (String.◌∷◌ c s) = code c ∷ codes s

-- A byte that can stand in a C string.
abbrev pub IsChar : ℕ → Type 0
IsChar c = (0 < c) × (c < 256)

abbrev pub within : ℕ → ℕ → ℕ → Bool
within lo hi c = leb lo c && leb c hi

abbrev pub isalnum : ℕ → Bool
isalnum c = within b'0' b'9' c || within b'A' b'Z' c || within b'a' b'z' c

abbrev pub isspace : ℕ → Bool
isspace c = c == b' ' || within 9 13 c

abbrev pub tolower : ℕ → ℕ
tolower c = if within b'A' b'Z' c then c + 32 else c

-- strcmp(a, b) == 0
unfoldable pub str_eq : Bytes → Bytes → Bool
str_eq [] [] = true
str_eq (x ∷ xs) (y ∷ ys) = x == y && str_eq xs ys
str_eq _ _ = false

pub str_eq_iff : (a b : Bytes) → (str_eq a b ≡ true) ↔ (a ≡ b)
unfolding str_eq
str_eq_iff (x ∷ a) (y ∷ b) = ground (arith, str_eq_iff a b)
str_eq_iff _ _ = ground arith

-- Pointers into a string are its suffixes. `strchr` is to the first `c`, `strrchr` to the last.
unfoldable pub strchr : Bytes → ℕ → Option Bytes
strchr [] c = none
strchr (x ∷ s) c = if x == c then some (x ∷ s) else strchr s c

abbrev or_here : ℕ → ℕ → Bytes → Option Bytes → Option Bytes
or_here c x s (some p) = some p
or_here c x s none = if x == c then some (x ∷ s) else none

unfoldable pub strrchr : Bytes → ℕ → Option Bytes
strrchr [] c = none
strrchr (x ∷ s) c = or_here c x s (strrchr s c)

-- `++p`, or `p + 1`
abbrev pub next_char : Bytes → Bytes
next_char [] = []
next_char (_ ∷ s) = s

-- What `strlcpy` leaves in a buffer of `size` bytes, for a positive size.
abbrev pub strlcpy : Bytes → ℕ → Bytes
strlcpy src size = take (size - 1) src

abbrev pub Lacks : ℕ → Bytes → Type 0
Lacks c = All (λ x. x ≢ c)

pub All-append {ℓ κ} :
    {A : Type ℓ} (P : A → Type κ) (xs ys : List A) → All P xs → All P ys → All P (xs ++ ys)
All-append P [] ys _ q = q
All-append P (x ∷ xs) ys (p, h) q = (p, All-append P xs ys h q)

pub strchr_sound :
    (s : Bytes) (c : ℕ) {p : Bytes}
    → strchr s c ≡ some p
    → (pre : Bytes) × (t : Bytes) × (p ≡ c ∷ t) × (s ≡ pre ++ (c ∷ t)) × Lacks c pre
unfolding strchr
strchr_sound [] c e = cc
strchr_sound (x ∷ s) c {p} e = elim (Bool-cases (x == c)) [
  | inl here ↦
      let same : x ≡ c = (==_iff x c).0 here in
      ([], s, cc (rw here at e, same), ap (λ y. y ∷ s) same, tt)
  | inr on ↦
      let (pre, t, at_c, whole, none_before) = strchr_sound s c (rw on at e) in
      (x ∷ pre, t, at_c, ap (◌∷◌ x) whole, (λ same. cc ((==_iff x c).1 same), none_before))
]

pub strchr-append : (pre t : Bytes) (c : ℕ) → Lacks c pre → strchr (pre ++ (c ∷ t)) c ≡ some (c ∷ t)
unfolding strchr
strchr-append [] t c _ = ground arith
strchr-append (x ∷ pre) t c (ne, h) = ground (arith, strchr-append pre t c h)

pub strrchr-none : (s : Bytes) (c : ℕ) → Lacks c s → strrchr s c ≡ none
unfolding strrchr
strrchr-none [] c _ = refl
strrchr-none (x ∷ s) c (ne, h) = rw (strrchr-none s c h) (ground arith)

pub strrchr-append : (pre t : Bytes) (c : ℕ) → Lacks c t → strrchr (pre ++ (c ∷ t)) c ≡ some (c ∷ t)
unfolding strrchr
strrchr-append [] t c h = rw (strrchr-none t c h) (ground arith)
strrchr-append (x ∷ pre) t c h = rw (strrchr-append pre t c h)

strrchr-Lacks : (s : Bytes) (c : ℕ) → strrchr s c ≡ none → Lacks c s
unfolding strrchr
strrchr-Lacks [] c _ = tt
strrchr-Lacks (x ∷ s) c e = elim (Option-cases (strrchr s c)) [
  | inl absent ↦ (λ same. ground arith, strrchr-Lacks s c absent)
  | inr (q, found) ↦ cc (rw found at e)
]

pub strrchr_sound :
    (s : Bytes) (c : ℕ) {p : Bytes}
    → strrchr s c ≡ some p
    → (pre : Bytes) × (t : Bytes) × (p ≡ c ∷ t) × (s ≡ pre ++ (c ∷ t)) × Lacks c t
unfolding strrchr
strrchr_sound [] c e = cc
strrchr_sound (x ∷ s) c {p} e = elim (Option-cases (strrchr s c)) [
  | inl absent ↦
      let same : x ≡ c = ground arith in
      ([], s, ground arith, ap (λ y. y ∷ s) same, strrchr-Lacks s c absent)
  | inr (q, found) ↦
      let (pre, t, at_c, whole, none_after) = strrchr_sound s c found in
      (x ∷ pre, t, ground arith, ap (◌∷◌ x) whole, none_after)
]

Lacks-append : (c : ℕ) (a t : Bytes) → Lacks c (a ++ (c ∷ t)) → ⊥
Lacks-append c [] t (ne, _) = ne refl
Lacks-append c (x ∷ a) t (_, h) = Lacks-append c a t h

-- Two ways to cut a string at `c`: the one that leaves more, with no `c` left, leaves the same.
pub cut_unique :
    (a b t u : Bytes) (c : ℕ)
    → a ++ (c ∷ t) ≡ b ++ (c ∷ u)
    → Lacks c u
    → length t ≤ length u
    → t ≡ u
cut_unique [] [] t u c e l h = cc
cut_unique [] (x ∷ b) t u c e l h = absurd (omega (arith, ap length e, length-append b (c ∷ u)))
cut_unique (x ∷ a) [] t u c e l h =
    let whole : a ++ (c ∷ t) ≡ u = cc in absurd (Lacks-append c a t (rw whole l))
cut_unique (x ∷ a) (y ∷ b) t u c e l h =
    let rest : a ++ (c ∷ t) ≡ b ++ (c ∷ u) = cc in cut_unique a b t u c rest l h
