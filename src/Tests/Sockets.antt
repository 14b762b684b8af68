-- ===== src/Tests/Sockets.antt =====
-- udp_multicast.cpp: an agent that fails to start, starts and stops.
use mini_middleware.Prelude.{List, [], ◌∷◌, true, false, none, some}
use mini_middleware.Discovery.UdpMulticast.{Results, Sockets, Op, starts, stops, run}
use mini_middleware.Discovery.UdpMulticast.Released.{Holds, idle, sockets_released}

abbrev stopped : Sockets
stopped = record {
  running = false;
  mc = record { recv_fd = none; send_fd = none; descriptors = 0 ∷ 1 ∷ 2 ∷ [] };
}

abbrev join_fails : Results
join_fails = record { recv_socket = some 3; binds = true; joins = false; send_socket = some 4 }

abbrev all_right : Results
all_right = record join_fails { joins = true }

abbrev tries : List Op
tries = starts join_fails ∷ starts all_right ∷ stops ∷ starts all_right ∷ []

sockets_released_example : Holds (0 ∷ 1 ∷ 2 ∷ []) (run stopped tries)
sockets_released_example = sockets_released tries (0 ∷ 1 ∷ 2 ∷ []) stopped idle
