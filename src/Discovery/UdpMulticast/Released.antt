-- ===== src/Discovery/UdpMulticast/Released.antt =====
-- udp_multicast.cpp and discovery_agent.cpp: which descriptors are open.
use mini_middleware.Prelude.{
  ℕ, ◌≡◌, sym, subst, List, [], ◌∷◌, Bool, true, false, not, Option, none, some, arith,
  either_branch,
}
use mini_middleware.Discovery.UdpMulticast.{
  UdpMulticast, Results, Sockets, Op, starts, stops, drop_fd, close, open_send, open_recv,
  open_sockets, start, stop, run,
}

-- Beside the descriptors `ds`, none are open while the agent does not run, and its two sockets are
-- while it runs.
pub data Holds (ds : List ℕ) : Sockets → Type 0 where
  idle :
      Holds ds (record {
        running = false;
        mc = record { recv_fd = none; send_fd = none; descriptors = ds };
      })
  busy :
      (r s : ℕ)
      → Holds ds (record {
        running = true;
        mc = record { recv_fd = some r; send_fd = some s; descriptors = s ∷ r ∷ ds };
      })

drop_fd-first : (fd : ℕ) (ds : List ℕ) → drop_fd fd (fd ∷ ds) ≡ ds
drop_fd-first fd ds = ground arith

drop_fd-pair : (r s : ℕ) (ds : List ℕ) → drop_fd s (drop_fd r (s ∷ r ∷ ds)) ≡ ds
drop_fd-pair r s ds = ground arith

abbrev idle_mc : List ℕ → UdpMulticast
idle_mc ds = record { recv_fd = none; send_fd = none; descriptors = ds }

-- What opening leaves, as the agent that started it.
abbrev Opened : List ℕ → UdpMulticast × Bool → Type 0
Opened ds p = Holds ds (record { running = p.1; mc = p.0 })

-- The receiving socket is open.
abbrev half_mc : List ℕ → ℕ → UdpMulticast
half_mc ds r = record { recv_fd = some r; send_fd = none; descriptors = r ∷ ds }

closed-Opened : (ds : List ℕ) (r : ℕ) → Opened ds (close (half_mc ds r), false)
unfolding close
closed-Opened ds r =
    subst (λ (l : List ℕ). Holds ds (record { running = false; mc = idle_mc l }))
      (sym (drop_fd-first r ds)) idle

open_send-Opened : (ds : List ℕ) (r : ℕ) (o : Option ℕ) → Opened ds (open_send (half_mc ds r) o)
unfolding open_send
open_send-Opened ds r none = closed-Opened ds r
open_send-Opened ds r (some s) = busy r s

open_recv-Opened :
    (ds : List ℕ) (r : Results) (o : Option ℕ) → Opened ds (open_recv (idle_mc ds) r o)
unfolding open_recv
open_recv-Opened ds r none = idle
open_recv-Opened ds r (some fd) =
    either_branch (λ (p : UdpMulticast × Bool). Opened ds p) (not r.binds) (closed-Opened ds fd)
      (either_branch (λ (p : UdpMulticast × Bool). Opened ds p) (not r.joins) (closed-Opened ds fd)
        (open_send-Opened ds fd r.send_socket))

start-Holds : (ds : List ℕ) (s : Sockets) (r : Results) → Holds ds s → Holds ds (start s r).0
unfolding start open_sockets
start-Holds ds s r idle = open_recv-Opened ds r r.recv_socket
start-Holds ds s r (busy a b) = busy a b

stop-Holds : (ds : List ℕ) (s : Sockets) → Holds ds s → Holds ds (stop s)
unfolding stop close
stop-Holds ds s idle = idle
stop-Holds ds s (busy a b) =
    subst (λ (l : List ℕ). Holds ds (record { running = false; mc = idle_mc l }))
      (sym (drop_fd-pair a b ds)) idle

-- However often an agent is started and stopped, and whichever of the system calls fail, beside the
-- descriptors that the process had no other is open while the agent does not run, and exactly its two
-- sockets are while it runs.
pub sockets_released :
    (ops : List Op) (ds : List ℕ) (s : Sockets) → Holds ds s → Holds ds (run s ops)
unfolding run
sockets_released [] ds s h = h
sockets_released (starts r ∷ ops) ds s h =
    sockets_released ops ds (start s r).0 (start-Holds ds s r h)
sockets_released (stops ∷ ops) ds s h = sockets_released ops ds (stop s) (stop-Holds ds s h)
