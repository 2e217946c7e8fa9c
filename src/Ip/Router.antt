-- ===== src/Ip/Router.antt =====
-- A host or a router over time: packets that arrive, checks for timeouts, interfaces that are taken
-- down and up, and handlers that are registered, in any order. Sending changes nothing in the stack.
pub mod Keeps
pub mod Reach
use mini_tls.Ip.Forward.{run_ip_layer, set_up}
use mini_tls.Ip.Init.{register_recv_handler}
use mini_tls.Ip.Packet.{IpLib}
use mini_tls.Ip.Types.{Effect, Handler, IpStack}
use mini_tls.Prelude.{String, ℕ, ◌≡◌, Bool, some, List}
use mini_tls.Rip.Update.{check_for_timeouts}

-- One of them.
pub data Step (lib : IpLib) : IpStack → IpStack → Type 0 where
  hears :
      (fuel now : ℕ) (msg_bytes : List ℕ) (effects : List Effect) {stack stack' : IpStack}
      → run_ip_layer lib fuel now msg_bytes stack ≡ some (stack', effects)
      → Step lib stack stack'
  checks :
      (now : ℕ) (effects : List Effect) {stack stack' : IpStack}
      → check_for_timeouts lib now stack ≡ some (stack', effects)
      → Step lib stack stack'
  switches :
      (name : String) (up : Bool) {stack stack' : IpStack}
      → set_up name up stack ≡ some stack'
      → Step lib stack stack'
  registers :
      (proto_num : ℕ) (handler : Handler) {stack stack' : IpStack}
      → register_recv_handler proto_num handler stack ≡ stack'
      → Step lib stack stack'

pub data Steps (lib : IpLib) (first : IpStack) : IpStack → Type 0 where
  no_step : Steps lib first first
  more_steps :
      {stack stack' : IpStack}
      → Steps lib first stack
      → Step lib stack stack'
      → Steps lib first stack'
