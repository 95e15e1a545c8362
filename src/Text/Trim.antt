-- ===== src/Text/Trim.antt =====
-- `rtrim` of RPI/util.c removes the spaces at the end, and only those.
use ps4rpi.Prelude.{
  ℕ, zero, suc, ◌-◌, ◌≤◌, ◌<◌, ◌≡◌, refl, sym, Bool, true, false, Option, none, some, [], ◌∷◌, ◌++◌,
  arith, ltb, if◌then◌else◌, Bool-cases, ◌⊎◌, inl, inr, length, length-take, get_or, take, drop,
  take-append-drop, Bytes, All, isspace,
}
use ps4rpi.Text.{trim_end, rtrim_ex, rtrim}

module _ (check : ℕ → Bool) where
  -- `s` is `kept` and then bytes that the check holds of, and the check fails on the last of `kept`.
  pub record IsTrimmed (s kept : Bytes) : Type 0 where
    pub dropped : Bytes
    pub splits : s ≡ kept ++ dropped
    pub all_dropped : All (λ c. check c ≡ true) dropped
    pub stops : (kept ≡ []) ⊎ (check (get_or kept (length kept - 1) 0) ≡ false)

  drop-suc : (k : ℕ) (s : Bytes) → k < length s → drop k s ≡ get_or s k 0 ∷ drop (suc k) s
  drop-suc k [] h = elim h [ ]
  drop-suc zero (c ∷ s) h = refl
  drop-suc (suc k) (c ∷ s) h = drop-suc k s (omega arith)

  get_or-take : (k : ℕ) (s : Bytes) → k < length s → get_or (take (suc k) s) k 0 ≡ get_or s k 0
  get_or-take k [] h = elim h [ ]
  get_or-take zero (c ∷ s) h = refl
  get_or-take (suc k) (c ∷ s) h = get_or-take k s (omega arith)

  trim_end-IsTrimmed :
      (s : Bytes) (k : ℕ)
      → k ≤ length s
      → All (λ c. check c ≡ true) (drop k s)
      → IsTrimmed s (take (trim_end check s k) s) × (trim_end check s k ≤ k)
  unfolding trim_end
  trim_end-IsTrimmed s zero h all =
      (record { dropped = s; splits = refl; all_dropped = all; stops = inl refl }, omega arith)
  trim_end-IsTrimmed s (suc k) h all = elim (Bool-cases (check (get_or s k 0))) [
    | inl more ↦
        let (t, le) =
          trim_end-IsTrimmed s k (omega arith) (rw (drop-suc k s (omega arith)) (more, all)) in
        rw more (t, omega arith)
    | inr stop ↦
        let len : length (take (suc k) s) - 1 ≡ k = omega (arith, length-take (suc k) s) in
        rw stop (
          record {
            dropped = drop (suc k) s;
            splits = sym (take-append-drop (suc k) s);
            all_dropped = all;
            stops = inr (rw (len, get_or-take k s (omega arith)) stop);
          },
          omega arith,
        )
  ]

  drop_all : (s : Bytes) → drop (length s) s ≡ []
  drop_all [] = refl
  drop_all (c ∷ s) = drop_all s

  trim_end-le : (s : Bytes) (k : ℕ) → trim_end check s k ≤ k
  unfolding trim_end
  trim_end-le s zero = omega arith
  trim_end-le s (suc k) = ground (arith, trim_end-le s k)

  length-trim_end :
      (s : Bytes) → length (take (trim_end check s (length s)) s) ≡ trim_end check s (length s)
  length-trim_end s =
      omega (arith, length-take (trim_end check s (length s)) s, trim_end-le s (length s))

  -- The index of the last byte left; none where there is none.
  abbrev pub last_index : Bytes → Option ℕ
  last_index [] = none
  last_index (_ ∷ kept) = some (length kept)

  last_index_of :
      (kept : Bytes)
      → (if ltb 0 (length kept) then some (length kept - 1) else none) ≡ last_index kept
  last_index_of [] = refl
  last_index_of (_ ∷ kept) = ground arith

  rtrim_ex-IsTrimmed : (s : Bytes) → IsTrimmed s (rtrim_ex check s).0
  unfolding rtrim_ex
  rtrim_ex-IsTrimmed [] = record { dropped = []; splits = refl; all_dropped = tt; stops = inl refl }
  rtrim_ex-IsTrimmed (c ∷ s) =
      (trim_end-IsTrimmed (c ∷ s) (length (c ∷ s)) (omega arith) (rw (drop_all (c ∷ s)) tt)).0

  rtrim_ex_pointer :
      (s : Bytes) → (s ≡ []) ⊎ ((rtrim_ex check s).1 ≡ last_index (rtrim_ex check s).0)
  unfolding rtrim_ex
  rtrim_ex_pointer [] = inl refl
  rtrim_ex_pointer (c ∷ s) =
      let kept = take (trim_end check (c ∷ s) (length (c ∷ s))) (c ∷ s) in
      inr (rw (length-trim_end (c ∷ s)) at (last_index_of kept))

-- `rtrim` leaves its string without the spaces at the end, and removes no other byte. The pointer
-- that it returns is to the last byte left, and null if there is none, unless the string was empty
-- to begin with.
pub rtrim_trims :
    (s : Bytes)
    → IsTrimmed isspace s (rtrim s).0 × ((s ≡ []) ⊎ ((rtrim s).1 ≡ last_index isspace (rtrim s).0))
unfolding rtrim
rtrim_trims s = (rtrim_ex-IsTrimmed isspace s, rtrim_ex_pointer isspace s)
