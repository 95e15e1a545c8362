-- ===== src/Download/Reads.antt =====
-- The reads of a response, RPI/http.c's loop around `sceHttpReadData`.
use ps4rpi.Prelude.{
  ℕ, zero, suc, ◌+◌, ◌-◌, ◌≤◌, ◌<◌, min, ◌≡◌, ◌⊎◌, inl, inr, refl, ap, ◌∙◌, Bool-cases, [], ◌∷◌,
  ◌++◌, ltb, length, Bytes, arith,
}
use ps4rpi.Download.{ReadData, read_failed, got, Response, transfer_step, count_of, transfer}

module _ (r : Response) where
  -- Reading from an offset on, in chunks, gave these bytes: each read is at the end of what was read
  -- before, and asks for what is left of the total, or a chunk; it ends at the total, or at a read
  -- that gave nothing and no error.
  pub data Reads (chunk_size total_size : ℕ) : ℕ → Bytes → Type 0 where
    full : {cur_size : ℕ} → total_size ≤ cur_size → Reads chunk_size total_size cur_size []
    ended :
        {cur_size : ℕ}
        → cur_size < total_size
        → (r.read cur_size (min (total_size - cur_size) chunk_size) ≡ got [])
          ⊎ (r.read cur_size (min (total_size - cur_size) chunk_size) ≡ read_failed 0)
        → Reads chunk_size total_size cur_size []
    more :
        {cur_size c : ℕ} {s rest : Bytes}
        → cur_size < total_size
        → r.read cur_size (min (total_size - cur_size) chunk_size) ≡ got (c ∷ s)
        → Reads chunk_size total_size (cur_size + length (c ∷ s)) rest
        → Reads chunk_size total_size cur_size ((c ∷ s) ++ rest)

  step-Reads :
      (chunk_size fuel total_size cur_size : ℕ) (step : ReadData)
      → ((n : ℕ)
          → total_size ≤ cur_size + n + fuel
          → (transfer r chunk_size fuel total_size (cur_size + n)).ret ≡ 0
          → Reads chunk_size total_size
              (cur_size + n)
              (transfer r chunk_size fuel total_size (cur_size + n)).received)
      → total_size ≤ cur_size + suc fuel
      → cur_size < total_size
      → r.read cur_size (min (total_size - cur_size) chunk_size) ≡ step
      → let t =
          transfer_step step (transfer r chunk_size fuel total_size (cur_size + count_of step)) in
        t.ret ≡ 0 → Reads chunk_size total_size cur_size t.received
  unfolding transfer_step
  step-Reads chunk_size fuel total_size cur_size (read_failed code) next enough left e ok =
      ended left (inr (e ∙ ap read_failed ok))
  step-Reads chunk_size fuel total_size cur_size (got []) next enough left e ok = ended left (inl e)
  step-Reads chunk_size fuel total_size cur_size (got (c ∷ s)) next enough left e ok =
      more left e (next (length (c ∷ s)) (omega (arith, enough)) ok)

  -- with one unit of fuel a byte, a transfer that succeeds has read so
  pub transfer-Reads :
      (chunk_size fuel total_size cur_size : ℕ)
      → total_size ≤ cur_size + fuel
      → (transfer r chunk_size fuel total_size cur_size).ret ≡ 0
      → Reads chunk_size total_size cur_size
          (transfer r chunk_size fuel total_size cur_size).received
  unfolding transfer
  transfer-Reads chunk_size zero total_size cur_size enough ok = full (omega (arith, enough))
  transfer-Reads chunk_size (suc fuel) total_size cur_size enough ok =
      elim (Bool-cases (ltb cur_size total_size)) [
        | inr over ↦ rw over (full (ground arith))
        | inl left ↦ rw left (
            step-Reads chunk_size fuel total_size cur_size
              (r.read cur_size (min (total_size - cur_size) chunk_size))
              (λ n. transfer-Reads chunk_size fuel total_size (cur_size + n)) enough (ground arith)
              refl (rw left at ok))
      ]
