-- ===== src/Discovery/UdpMulticast.antt =====
-- discovery/include/discovery/udp_multicast.h and discovery/src/udp_multicast.cpp, and the start and
-- stop of discovery_agent.cpp, which open and close the sockets. What the system calls return is an
-- argument; `descriptors` are the open ones of the process.
pub mod Released
use mini_middleware.Prelude.{
  ℕ, List, [], ◌∷◌, Bool, true, false, not, Option, none, some, Bytes, length, take, ◌==◌,
  if◌then◌else◌,
}

pub record UdpMulticast : Type 0 where
  pub recv_fd : Option ℕ
  pub send_fd : Option ℕ
  pub descriptors : List ℕ

-- What `socket` gives for the receiving socket, whether `bind` and the join of the group succeed, and
-- what `socket` gives for the sending one.
pub record Results : Type 0 where
  pub recv_socket : Option ℕ
  pub binds : Bool
  pub joins : Bool
  pub send_socket : Option ℕ

abbrev pub drop_fd : ℕ → List ℕ → List ℕ
drop_fd fd [] = []
drop_fd fd (f ∷ fs) = let rest = drop_fd fd fs in if f == fd then fs else f ∷ rest

abbrev pub released : Option ℕ → List ℕ → List ℕ
released none ds = ds
released (some fd) ds = drop_fd fd ds

unfoldable pub close : UdpMulticast → UdpMulticast
close u = record {
  recv_fd = none;
  send_fd = none;
  descriptors = released u.send_fd (released u.recv_fd u.descriptors);
}

abbrev pub acquired : Option ℕ → List ℕ → List ℕ
acquired none ds = ds
acquired (some fd) ds = fd ∷ ds

open_send : UdpMulticast → Option ℕ → UdpMulticast × Bool
open_send u none = (close (record u { send_fd = none }), false)
open_send u (some fd) = (record u { send_fd = some fd; descriptors = fd ∷ u.descriptors }, true)

open_recv : UdpMulticast → Results → Option ℕ → UdpMulticast × Bool
unfolding open_send
open_recv u r none = (record u { recv_fd = none }, false)
open_recv u r (some fd) =
    let v = record u { recv_fd = some fd; descriptors = fd ∷ u.descriptors } in
    if not r.binds
    then (close v, false)
    else if not r.joins
    then (close v, false)
    else open_send v r.send_socket

unfoldable pub open_sockets : UdpMulticast → Results → UdpMulticast × Bool
unfolding open_recv
open_sockets u r = open_recv u r r.recv_socket

sent_all : Bytes → Option ℕ → Bool
sent_all bytes none = false
sent_all bytes (some n) = n == length bytes

-- `sent` is how many bytes `sendto` took, none if it failed.
unfoldable pub send : UdpMulticast → Bytes → Option ℕ → Bool
unfolding sent_all
send u bytes sent = elim u.send_fd [ none ↦ false | some fd ↦ sent_all bytes sent ]

-- `got` is the datagram that `recv` gives, none at the timeout; what does not fit into the buffer is
-- cut off.
unfoldable pub recv : UdpMulticast → Option Bytes → Option Bytes
recv u none = none
recv u (some datagram) = elim u.recv_fd [ none ↦ none | some fd ↦ some (take 65536 datagram) ]

-- The agent's `running_`, and its sockets.
pub record Sockets : Type 0 where
  pub running : Bool
  pub mc : UdpMulticast

unfoldable pub start : Sockets → Results → Sockets × Bool
start s r =
    let (mc, ok) = open_sockets s.mc r in
    if s.running then (s, true) else (record { running = ok; mc = mc }, ok)

unfoldable pub stop : Sockets → Sockets
stop s = if s.running then record { running = false; mc = close s.mc } else s

pub data Op : Type 0 where
  starts : Results → Op
  stops : Op

unfoldable pub run : Sockets → List Op → Sockets
run s [] = s
run s (starts r ∷ ops) = run (start s r).0 ops
run s (stops ∷ ops) = run (stop s) ops
