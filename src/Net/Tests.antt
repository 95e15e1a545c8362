-- ===== src/Net/Tests.antt =====
-- The network brought up where the pool cannot be made.
use ps4rpi.Prelude.{ℕ, ◌^◌, ◌-◌, ◌≡◌, refl, false, some, [], ◌∷◌, codes}
use ps4rpi.Net.{NetCall, NetLog, NetLibrary, NetState, net_init, net_fini, net_get_ipv4}
use ps4rpi.Net.Held.{IsConsistent, net_init_fini-IsConsistent}

abbrev answer : NetLog → NetCall → ℕ
answer log (NetCall.pool_create size) = 2 ^ 31
answer log _ = 0

abbrev lib : NetLibrary
lib = record { ret = answer; ip_address = λ log. codes "192.168.0.9" }

abbrev down : NetState
down = record { libnet_mem_id = 2 ^ 32 - 1; net_initialized = false }

-- the library and the control library are given up again
undone :
    (net_init lib down []).log
    ≡ NetCall.netctl_term
      ∷ NetCall.sce_net_term
      ∷ NetCall.pool_create 1048576
      ∷ NetCall.sce_net_init
      ∷ NetCall.netctl_init
      ∷ []
unfolding net_init
undone = refl

address : (net_get_ipv4 lib 16 []).stored ≡ some (codes "192.168.0.9")
unfolding net_get_ipv4
address = refl

net_init_fini-IsConsistent_example :
    IsConsistent lib (net_init lib down []).state (net_init lib down []).log
    × ((net_init lib down []).state.net_initialized ≡ (net_init lib down []).status)
    × IsConsistent lib (net_fini down []).state (net_fini down []).log
    × ((net_fini down []).state.net_initialized ≡ false)
net_init_fini-IsConsistent_example = net_init_fini-IsConsistent lib down [] refl
