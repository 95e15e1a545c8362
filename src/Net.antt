-- ===== src/Net.antt =====
-- RPI/net.c: `net_init`, `net_is_initialized`, `net_get_mem_id`, `net_fini`, `net_get_ipv4`. The calls
-- of the console's network library are a log, the latest first; what a finishing call returns is only
-- reported to the kernel log.
pub mod Held
mod Tests
use ps4rpi.Prelude.{
  ℕ, ◌*◌, Bool, true, false, not, Option, none, some, List, ◌∷◌, if◌then◌else◌, ◌==◌, ltb, Bytes,
  strlcpy,
}
use ps4rpi.Console.{is_negative, minus_one}

pub data NetCall : Type 0 where
  netctl_init netctl_term sce_net_init sce_net_term get_ip_address : NetCall
  pool_create : (size : ℕ) → NetCall
  pool_destroy : (mem_id : ℕ) → NetCall

abbrev pub NetLog : Type 0
NetLog = List NetCall

-- what the calls return, and the string that `sceNetCtlGetInfo` stores
pub record NetLibrary : Type 0 where
  pub ret : NetLog → NetCall → ℕ
  pub ip_address : NetLog → Bytes

-- the static variables
pub record NetState : Type 0 where
  pub libnet_mem_id : ℕ
  pub net_initialized : Bool

pub record NetResult : Type 0 where
  pub status : Bool
  pub state : NetState
  pub log : NetLog

-- an IPv4 address: the value returned, and what is stored to the buffer
pub record Address : Type 0 where
  pub ret : ℕ
  pub stored : Option Bytes
  pub log : NetLog

abbrev pub net_heap_size : ℕ
net_heap_size = 1 * 1024 * 1024

abbrev ip_address_size : ℕ
ip_address_size = 16

err_netctl_terminate : NetState → NetLog → NetResult
err_netctl_terminate s log = record { status = false; state = s; log = NetCall.netctl_term ∷ log }

err_net_terminate : NetState → NetLog → NetResult
unfolding err_netctl_terminate
err_net_terminate s log = err_netctl_terminate s (NetCall.sce_net_term ∷ log)

unfoldable pub net_get_mem_id : NetState → ℕ
net_get_mem_id s = if not s.net_initialized then minus_one else s.libnet_mem_id

-- returns nothing; the status is not read
unfoldable pub net_fini : NetState → NetLog → NetResult
net_fini s log =
    if not s.net_initialized then record { status = true; state = s; log = log } else record {
      status = true;
      state = record { libnet_mem_id = minus_one; net_initialized = false };
      log = NetCall.netctl_term ∷ NetCall.sce_net_term ∷ NetCall.pool_destroy s.libnet_mem_id ∷ log;
    }

module _ (lib : NetLibrary) where
  create_pool : NetState → NetLog → NetResult
  unfolding err_net_terminate
  create_pool s log =
      let call = NetCall.pool_create net_heap_size in
      let mem_id = lib.ret log call in
      if is_negative mem_id then err_net_terminate s (call ∷ log) else record {
        status = true;
        state = record { libnet_mem_id = mem_id; net_initialized = true };
        log = call ∷ log;
      }

  start_net : NetState → NetLog → NetResult
  unfolding create_pool err_netctl_terminate
  start_net s log =
      if not (lib.ret log NetCall.sce_net_init == 0)
      then err_netctl_terminate s (NetCall.sce_net_init ∷ log)
      else create_pool s (NetCall.sce_net_init ∷ log)

  unfoldable pub net_init : NetState → NetLog → NetResult
  unfolding start_net
  net_init s log =
      if s.net_initialized
      then record { status = true; state = s; log = log }
      else if not (lib.ret log NetCall.netctl_init == 0)
      then record { status = false; state = s; log = NetCall.netctl_init ∷ log }
      else start_net s (NetCall.netctl_init ∷ log)

  -- the buffer is no null pointer
  unfoldable pub net_get_ipv4 : (buf_size : ℕ) → NetLog → Address
  net_get_ipv4 buf_size log =
      if ltb buf_size ip_address_size
      then record { ret = 0x80020016; stored = none; log = log }
      else let ret = lib.ret log NetCall.get_ip_address in
        if not (ret == 0)
        then record { ret = ret; stored = none; log = NetCall.get_ip_address ∷ log }
        else record {
          ret = 0;
          stored = some (strlcpy (lib.ip_address log) buf_size);
          log = NetCall.get_ip_address ∷ log;
        }
