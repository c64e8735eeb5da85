-- ===== src/Tests/Threads.antt =====
-- Two threads in `create_request` (src/transport/active_request.cpp) at once.
use http2_server.Prelude.{◌≡◌, refl, ℕ, ◌+◌, ℕ_discrete, none, some, arith}
use http2_server.ActiveRequest.{generate_request_id, get_request, get_active_count, store_request}
use http2_server.ActiveRequest.Threads.{
  System, Reach, made, begin, later, pick, draw, make, store, held,
}
use http2_server.ActiveRequest.Threads.Stable.{Knows}
use http2_server.ActiveRequest.Threads.Invariant.{store_request_safe}

-- Thread 0 draws 1, thread 1 draws 2 and stores its request, and then thread 0 has made its own.
racing : (s : System) × Reach 2 s × (s.pc 0 ≡ made 1 1)
unfolding ℕ_discrete generate_request_id
racing = (
  _,
  later
      (later (later (later (later begin (pick 0 draw)) (pick 1 draw)) (pick 1 (make 5)))
        (pick 1 store))
      (pick 0 (make 7)),
  refl,
)

store_request_safe_example :
    (get_request 1 racing.0.manager ≡ none)
    × ((j : ℕ) → held (racing.0.pc j) ≡ some 1 → 0 ≡ j)
    × Knows 1 1 racing.0.manager
    × (get_active_count (store_request 1 1 racing.0.manager)
        ≡ get_active_count racing.0.manager + 1)
store_request_safe_example = store_request_safe 0 1 1 (omega arith) racing.1 racing.2
