-- ===== src/Net/Held.antt =====
-- What the network library holds after the calls of the log.
use ps4rpi.Prelude.{
  ℕ, ◌≡◌, refl, Bool, true, false, not, Bool-cases, if-case, inl, inr, arith, Option, none, some,
  List, [], ◌∷◌, if◌then◌else◌, ◌==◌,
}
use ps4rpi.Console.{is_negative}
use ps4rpi.Net.{
  NetCall, NetLog, NetLibrary, NetState, NetResult, net_heap_size, err_netctl_terminate,
  err_net_terminate, create_pool, start_net, net_init, net_fini,
}

pub data Piece : Type 0 where
  netctl net : Piece
  pool : ℕ → Piece

-- each is given up as the last one taken, or the log is out of order
abbrev give_up : Piece → Option (List Piece) → Option (List Piece)
give_up Piece.netctl (some (Piece.netctl ∷ held)) = some held
give_up Piece.net (some (Piece.net ∷ held)) = some held
give_up (Piece.pool id) (some (Piece.pool got ∷ held)) = if id == got then some held else none
give_up _ _ = none

abbrev take_up : Piece → Option (List Piece) → Option (List Piece)
take_up piece none = none
take_up piece (some held) = some (piece ∷ held)

module _ (lib : NetLibrary) where
  abbrev replay : NetCall → NetLog → Option (List Piece) → Option (List Piece)
  replay NetCall.netctl_init log held =
      if lib.ret log NetCall.netctl_init == 0 then take_up Piece.netctl held else held
  replay NetCall.netctl_term log held = give_up Piece.netctl held
  replay NetCall.sce_net_init log held =
      if lib.ret log NetCall.sce_net_init == 0 then take_up Piece.net held else held
  replay NetCall.sce_net_term log held = give_up Piece.net held
  replay NetCall.get_ip_address log held = held
  replay (NetCall.pool_create size) log held =
      if is_negative (lib.ret log (NetCall.pool_create size))
      then held
      else take_up (Piece.pool (lib.ret log (NetCall.pool_create size))) held
  replay (NetCall.pool_destroy id) log held = give_up (Piece.pool id) held

  -- what is held, the last taken first; none if something was given up out of order
  abbrev pub held_after : NetLog → Option (List Piece)
  held_after [] = some []
  held_after (call ∷ log) = replay call log (held_after log)

  -- What is held is what the static variables say.
  abbrev pub IsConsistent : NetState → NetLog → Type 0
  IsConsistent s log = held_after log ≡ (
      if s.net_initialized
      then some (Piece.pool s.libnet_mem_id ∷ Piece.net ∷ Piece.netctl ∷ [])
      else some [])

  create_pool-IsConsistent :
      (s : NetState) (log : NetLog)
      → s.net_initialized ≡ false
      → held_after log ≡ some (Piece.net ∷ Piece.netctl ∷ [])
      → IsConsistent (create_pool lib s log).state (create_pool lib s log).log
        × ((create_pool lib s log).state.net_initialized ≡ (create_pool lib s log).status)
  unfolding create_pool err_net_terminate err_netctl_terminate
  create_pool-IsConsistent s log down h =
      elim (Bool-cases (is_negative (lib.ret log (NetCall.pool_create net_heap_size)))) [
        | inl bad ↦ rw bad (rw (bad, h, down) refl, down)
        | inr good ↦ rw good (rw (good, h) refl, refl)
      ]

  start_net-IsConsistent :
      (s : NetState) (log : NetLog)
      → s.net_initialized ≡ false
      → held_after log ≡ some (Piece.netctl ∷ [])
      → IsConsistent (start_net lib s log).state (start_net lib s log).log
        × ((start_net lib s log).state.net_initialized ≡ (start_net lib s log).status)
  unfolding start_net err_netctl_terminate
  start_net-IsConsistent s log down h = elim (Bool-cases (lib.ret log NetCall.sce_net_init == 0)) [
    | inl good ↦
        rw good (create_pool-IsConsistent s (NetCall.sce_net_init ∷ log) down (rw (good, h) refl))
    | inr bad ↦ rw bad (rw (bad, h, down) refl, down)
  ]

  init-by :
      (id : ℕ) (up : Bool) (log : NetLog)
      → IsConsistent (record { libnet_mem_id = id; net_initialized = up }) log
      → IsConsistent
          (net_init lib (record { libnet_mem_id = id; net_initialized = up }) log).state
          (net_init lib (record { libnet_mem_id = id; net_initialized = up }) log).log
        × ((net_init lib
              (record { libnet_mem_id = id; net_initialized = up })
              log).state.net_initialized
            ≡ (net_init lib (record { libnet_mem_id = id; net_initialized = up }) log).status)
  unfolding net_init
  init-by id true log h = (h, refl)
  init-by id false log h = elim (Bool-cases (lib.ret log NetCall.netctl_init == 0)) [
    | inl good ↦
        rw good (start_net-IsConsistent _ (NetCall.netctl_init ∷ log) refl (rw (good, h) refl))
    | inr bad ↦ rw bad (rw (bad, h) refl, refl)
  ]

  fini-by :
      (id : ℕ) (up : Bool) (log : NetLog)
      → IsConsistent (record { libnet_mem_id = id; net_initialized = up }) log
      → IsConsistent
          (net_fini (record { libnet_mem_id = id; net_initialized = up }) log).state
          (net_fini (record { libnet_mem_id = id; net_initialized = up }) log).log
        × ((net_fini
              (record { libnet_mem_id = id; net_initialized = up })
              log).state.net_initialized
            ≡ false)
  unfolding net_fini
  fini-by id true log h = let same : id == id ≡ true = ground arith in (rw (h, same) refl, refl)
  fini-by id false log h = (h, refl)

  -- Bringing the network up, whichever step fails, and taking it down keep what is held what the
  -- static variables say: the control library, the network library and one pool when the network is
  -- up, in this order and given up in the reverse, and nothing when it is down. Bringing it up
  -- succeeds just when it is up afterwards, and after taking it down it is down.
  pub net_init_fini-IsConsistent :
      (s : NetState) (log : NetLog)
      → IsConsistent s log
      → IsConsistent (net_init lib s log).state (net_init lib s log).log
        × ((net_init lib s log).state.net_initialized ≡ (net_init lib s log).status)
        × IsConsistent (net_fini s log).state (net_fini s log).log
        × ((net_fini s log).state.net_initialized ≡ false)
  net_init_fini-IsConsistent s log h =
      let (kept, answered) = init-by s.libnet_mem_id s.net_initialized log h in
      let (left, down) = fini-by s.libnet_mem_id s.net_initialized log h in
      (kept, answered, left, down)

-- The answer of the start is the flag after it, and after the end the flag is down.
pub record InitsNet (r : NetResult) : Type 0 where
  pub answers : r.state.net_initialized ≡ r.status

pub record FinishesNet (r : NetResult) : Type 0 where
  pub down : r.state.net_initialized ≡ false

not-true : (b : Bool) → not b ≡ true → b ≡ false
not-true false h = refl
not-true true h = absurd cc

module _ (lib : NetLibrary) where
  pub net_init-Inits : (s : NetState) (log : NetLog) → InitsNet (net_init lib s log)
  unfolding net_init start_net create_pool err_net_terminate err_netctl_terminate
  net_init-Inits s log =
      if-case InitsNet s.net_initialized _ _ (λ up. record { answers = up })
        (λ down.
          if-case InitsNet (not (lib.ret log NetCall.netctl_init == 0)) _ _
            (λ bad. record { answers = down })
            (λ good.
              if-case InitsNet (not (lib.ret (NetCall.netctl_init ∷ log) NetCall.sce_net_init == 0))
                _ _ (λ bad. record { answers = down })
                (λ good.
                  if-case InitsNet
                    (is_negative (
                      lib.ret (NetCall.sce_net_init ∷ NetCall.netctl_init ∷ log)
                        (NetCall.pool_create net_heap_size)))
                    _ _ (λ bad. record { answers = down }) (λ good. record { answers = refl }))))

  up-by :
      (id : ℕ) (up : Bool) (log : NetLog)
      → ((l : NetLog) → lib.ret l NetCall.netctl_init ≡ 0)
      → ((l : NetLog) → lib.ret l NetCall.sce_net_init ≡ 0)
      → ((l : NetLog) (size : ℕ) → is_negative (lib.ret l (NetCall.pool_create size)) ≡ false)
      → (net_init lib (record { libnet_mem_id = id; net_initialized = up }) log).status ≡ true
  unfolding net_init start_net create_pool
  up-by id true log ctl_fine net_fine pool_fine = refl
  up-by id false log ctl_fine net_fine pool_fine =
      rw
        (
          ctl_fine log,
          net_fine (NetCall.netctl_init ∷ log),
          pool_fine (NetCall.sce_net_init ∷ NetCall.netctl_init ∷ log) net_heap_size,
        )
        refl

  -- Bringing the network up succeeds where every call does.
  pub net_init-succeeds :
      (s : NetState) (log : NetLog)
      → ((l : NetLog) → lib.ret l NetCall.netctl_init ≡ 0)
      → ((l : NetLog) → lib.ret l NetCall.sce_net_init ≡ 0)
      → ((l : NetLog) (size : ℕ) → is_negative (lib.ret l (NetCall.pool_create size)) ≡ false)
      → (net_init lib s log).status ≡ true
  net_init-succeeds s log ctl_fine net_fine pool_fine =
      up-by s.libnet_mem_id s.net_initialized log ctl_fine net_fine pool_fine

pub net_fini-Finishes : (s : NetState) (log : NetLog) → FinishesNet (net_fini s log)
unfolding net_fini
net_fini-Finishes s log =
    if-case FinishesNet (not s.net_initialized) _ _
      (λ down. record { down = not-true s.net_initialized down }) (λ up. record { down = refl })
