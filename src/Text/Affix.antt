-- ===== src/Text/Affix.antt =====
-- The prefix and suffix tests of RPI/util.c decide the relations that their names say.
use ps4rpi.Prelude.{
  ℕ, ◌-◌, ◌≡◌, refl, sym, ap, ◌∙◌, ◌↔◌, Bool, true, false, [], ◌∷◌, ◌++◌, map, arith, ltb, ◌==◌,
  ==_iff, if◌then◌else◌, Bool-cases, inl, inr, length, length-append, length-map, take, drop,
  take-append-drop, drop-append, length-drop, Bytes, tolower,
}
use ps4rpi.Text.{
  scan_prefix, is_terminator, starts_with, starts_with_nocase, match_from, ends_with,
  ends_with_nocase,
}

map_id : (s : Bytes) → map (λ c. c) s ≡ s
map_id [] = refl
map_id (c ∷ s) = ap (◌∷◌ c) (map_id s)

module _ (key : ℕ → ℕ) where
  -- `h` begins with a text that is `n` up to `key`
  abbrev pub BeginsWith : Bytes → Bytes → Type 0
  BeginsWith h n = (mid : Bytes) × (rest : Bytes) × (h ≡ mid ++ rest) × (map key mid ≡ map key n)

  -- `h` ends with a text that is `n` up to `key`
  abbrev pub FinishesWith : Bytes → Bytes → Type 0
  FinishesWith h n =
      (front : Bytes) × (mid : Bytes) × (h ≡ front ++ mid) × (map key mid ≡ map key n)

  scan_prefix_sound : (h n : Bytes) → is_terminator (scan_prefix key h n) ≡ true → BeginsWith h n
  unfolding scan_prefix
  scan_prefix_sound [] [] e = ([], [], refl, refl)
  scan_prefix_sound [] (_ ∷ _) e = cc
  scan_prefix_sound (c ∷ h) [] e = ([], c ∷ h, refl, refl)
  scan_prefix_sound (c ∷ h) (d ∷ n) e = elim (Bool-cases (key c == key d)) [
    | inl same ↦
        let (mid, rest, whole, alike) = scan_prefix_sound h n (rw same at e) in
        (c ∷ mid, rest, ap (◌∷◌ c) whole, cc ((==_iff (key c) (key d)).0 same))
    | inr other ↦ ground arith
  ]

  scan_prefix_complete :
      (mid rest n : Bytes)
      → map key mid ≡ map key n
      → is_terminator (scan_prefix key (mid ++ rest) n) ≡ true
  unfolding scan_prefix
  scan_prefix_complete [] [] [] e = refl
  scan_prefix_complete [] (_ ∷ _) [] e = refl
  scan_prefix_complete [] rest (_ ∷ _) e = cc
  scan_prefix_complete (_ ∷ _) rest [] e = cc
  scan_prefix_complete (c ∷ mid) rest (d ∷ n) e = ground (arith, scan_prefix_complete mid rest n)

  match_from_sound :
      (n h : Bytes) → length h ≡ length n → match_from key n h ≡ true → map key h ≡ map key n
  unfolding match_from
  match_from_sound [] [] l e = refl
  match_from_sound [] (_ ∷ _) l e = absurd (omega arith)
  match_from_sound (_ ∷ _) [] l e = cc
  match_from_sound (c ∷ n) (d ∷ h) l e = ground (arith, match_from_sound n h)

  match_from_complete : (n h : Bytes) → map key h ≡ map key n → match_from key n h ≡ true
  unfolding match_from
  match_from_complete [] h e = refl
  match_from_complete (_ ∷ _) [] e = cc
  match_from_complete (c ∷ n) (d ∷ h) e = ground (arith, match_from_complete n h)

  abbrev suffix_test : Bytes → Bytes → Bool
  suffix_test h n =
      if ltb (length h) (length n) then false else match_from key n (drop (length h - length n) h)

  suffix_test_sound : (h n : Bytes) → suffix_test h n ≡ true → FinishesWith h n
  suffix_test_sound h n e =
      let k = length h - length n in
      (
        take k h,
        drop k h,
        sym (take-append-drop k h),
        match_from_sound n (drop k h) (ground (arith, length-drop k h)) (ground arith),
      )

  suffix_test_complete :
      (front mid n : Bytes) → map key mid ≡ map key n → suffix_test (front ++ mid) n ≡ true
  suffix_test_complete front mid n e =
      let lens : length mid ≡ length n =
        sym (length-map key mid) ∙ ap length e ∙ length-map key n in
      let cut : length (front ++ mid) - length n ≡ length front =
        omega (arith, length-append front mid) in
      rw (cut, drop-append front mid)
        (ground (arith, length-append front mid, match_from_complete n mid e))

-- `starts_with` answers true exactly when the needle is a prefix of the haystack.
pub starts_with_iff : (h n : Bytes) → (starts_with h n ≡ true) ↔ ((rest : Bytes) × (h ≡ n ++ rest))
unfolding starts_with
starts_with_iff h n = (
  λ e.
      let (mid, rest, whole, alike) = scan_prefix_sound (λ c. c) h n e in
      (rest, whole ∙ ap (λ m. m ++ rest) (sym (map_id mid) ∙ alike ∙ map_id n)),
  λ (rest, whole). rw whole (scan_prefix_complete (λ c. c) n rest n refl),
)

-- `starts_with_nocase` answers true exactly when the haystack has a prefix that is the needle up to
-- the case of ASCII letters.
pub starts_with_nocase_iff :
    (h n : Bytes) → (starts_with_nocase h n ≡ true) ↔ BeginsWith tolower h n
unfolding starts_with_nocase
starts_with_nocase_iff h n = (
  scan_prefix_sound tolower h n,
  λ (mid, rest, whole, alike). rw whole (scan_prefix_complete tolower mid rest n alike),
)

-- `ends_with` answers true exactly when the needle is a suffix of the haystack.
pub ends_with_iff : (h n : Bytes) → (ends_with h n ≡ true) ↔ ((front : Bytes) × (h ≡ front ++ n))
unfolding ends_with
ends_with_iff h n = (
  λ e.
      let (front, mid, whole, alike) = suffix_test_sound (λ c. c) h n e in
      (front, whole ∙ ap (◌++◌ front) (sym (map_id mid) ∙ alike ∙ map_id n)),
  λ (front, whole). rw whole (suffix_test_complete (λ c. c) front n n refl),
)

-- `ends_with_nocase` answers true exactly when the haystack has a suffix that is the needle up to
-- the case of ASCII letters.
pub ends_with_nocase_iff : (h n : Bytes) → (ends_with_nocase h n ≡ true) ↔ FinishesWith tolower h n
unfolding ends_with_nocase
ends_with_nocase_iff h n = (
  suffix_test_sound tolower h n,
  λ (front, mid, whole, alike). rw whole (suffix_test_complete tolower front mid n alike),
)
