-- ===== src/Prelude/Search.antt =====
-- The C function `strstr`, and what it finds.
use Prim.Native.Nat.{ℕ, ◌+◌}
use mathlib.Core.Path.{◌≡◌, refl, ap}
use mathlib.Core.Logic.{◌≢◌, inl, inr}
use mathlib.Core.Bool.{Bool, true, false}
use mathlib.Core.Option.{Option, none, some}
use mathlib.Core.List.{[], ◌∷◌, ◌++◌}
use native.Mathlib.Omega.{arith}
use ps4rpi.Prelude.Tests.{◌==◌, ==_iff, if◌then◌else◌, Bool-cases, Option-cases}
use ps4rpi.Prelude.Strings.{Bytes}

-- whether the first string begins with the second
unfoldable pub begins_with : Bytes → Bytes → Bool
begins_with s [] = true
begins_with [] (c ∷ t) = false
begins_with (x ∷ s) (c ∷ t) = if x == c then begins_with s t else false

abbrev next_index : Option ℕ → Option ℕ
next_index none = none
next_index (some i) = some (i + 1)

-- `strstr`, as the index of the first place where it is found
unfoldable pub strstr : Bytes → Bytes → Option ℕ
strstr [] t = if begins_with [] t then some 0 else none
strstr (x ∷ s) t =
    let later = strstr s t in if begins_with (x ∷ s) t then some 0 else next_index later

pub begins_with_sound : (s t : Bytes) → begins_with s t ≡ true → (rest : Bytes) × (s ≡ t ++ rest)
unfolding begins_with
begins_with_sound s [] h = (s, refl)
begins_with_sound [] (c ∷ t) h = cc
begins_with_sound (x ∷ s) (c ∷ t) h = elim (Bool-cases (x == c)) [
  | inl same ↦
      let h' : begins_with s t ≡ true = ground arith in
      let (rest, e) = begins_with_sound s t h' in
      let head : x ≡ c = (==_iff x c).0 same in (rest, cc)
  | inr other ↦ ground arith
]

begins_with_complete : (t rest : Bytes) → begins_with (t ++ rest) t ≡ true
unfolding begins_with
begins_with_complete [] rest = refl
begins_with_complete (c ∷ t) rest = ground (arith, begins_with_complete t rest)

-- The second string stands somewhere in the first.
abbrev pub Contains : Bytes → Bytes → Type 0
Contains s t = (a : Bytes) × (b : Bytes) × (s ≡ a ++ (t ++ b))

begins_with-none : (s t : Bytes) → strstr s t ≡ none → begins_with s t ≡ false
unfolding strstr
begins_with-none [] t h = ground arith
begins_with-none (x ∷ s) t h = ground arith

strstr_later : (x : ℕ) (s t : Bytes) → strstr (x ∷ s) t ≡ none → strstr s t ≡ none
unfolding strstr
strstr_later x s t h = ground arith

pub strstr-none : (s t : Bytes) → strstr s t ≡ none → ¬ Contains s t
strstr-none s t h ([], b, e) =
    let miss : begins_with s t ≡ false = begins_with-none s t h in
    let hit : begins_with s t ≡ true = rw e (begins_with_complete t b) in cc
strstr-none [] t h (y ∷ a, b, e) = cc
strstr-none (x ∷ s) t h (y ∷ a, b, e) = strstr-none s t (strstr_later x s t h) (a, b, cc)

impossible :
    (x : ℕ) (s t : Bytes) {i : ℕ}
    → strstr (x ∷ s) t ≡ some i
    → begins_with (x ∷ s) t ≡ false
    → strstr s t ≢ none
unfolding strstr
impossible x s t h miss nowhere = ground arith

pub strstr-some : (s t : Bytes) {i : ℕ} → strstr s t ≡ some i → Contains s t
unfolding strstr
strstr-some [] t h = let (rest, e) = begins_with_sound [] t (ground arith) in ([], rest, e)
strstr-some (x ∷ s) t h = elim (Bool-cases (begins_with (x ∷ s) t)) [
  | inl hit ↦ let (rest, e) = begins_with_sound (x ∷ s) t hit in ([], rest, e)
  | inr miss ↦ elim (Option-cases (strstr s t)) [
    | inl nowhere ↦ absurd (impossible x s t h miss nowhere)
    | inr (i, place) ↦ let (a, b, e) = strstr-some s t place in (x ∷ a, b, ap (λ r. x ∷ r) e)
  ]
]
