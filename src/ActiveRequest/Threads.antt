-- ===== src/ActiveRequest/Threads.antt =====
-- The manager of active requests (src/transport/active_request.cpp) used by any number of threads at
-- once. A step is what one thread does under the mutex or in one atomic operation; `create_request` is
-- three of them.
pub mod Stable
pub mod Moves
pub mod Invariant
use http2_server.Prelude.{ℕ, ◌+◌, ℕ_discrete, Option, none, some}
use http2_server.ActiveRequest.{
  RequestState, Pointer, Manager, generate_request_id, make_request, store_request,
  complete_request, set_state, no_requests,
}

-- Where a thread stands in `create_request`, with its local variables.
pub data Pc : Type 0 where
  outside : Pc
  numbered : (id : ℕ) → Pc
  made : (id : ℕ) (request : Pointer) → Pc

-- One step of one thread, with the number of ids that it draws.
pub data Move (m : Manager) : ℕ → Pc → Manager → Pc → Type 0 where
  draw : Move m 1 outside (generate_request_id m).1 (numbered (generate_request_id m).0)
  make :
      {id : ℕ} (now : ℕ)
      → Move m 0 (numbered id) (make_request id now m).1 (made id (make_request id now m).0)
  store : {id : ℕ} {p : Pointer} → Move m 0 (made id p) (store_request id p m) outside
  complete : (id : ℕ) → Move m 0 outside (complete_request id m) outside
  advance : (p : Pointer) (state : RequestState) → Move m 0 outside (set_state p state m) outside

abbrev pub update : (ℕ → Pc) → ℕ → Pc → ℕ → Pc
update pc i p j = elim (ℕ_discrete i j) [ yes e ↦ p | no e ↦ pc j ]

pub record System : Type 0 where
  pub manager : Manager
  pub pc : ℕ → Pc

abbrev pub init : System
init = record { manager = no_requests; pc = λ i. outside }

pub data Step (s : System) : ℕ → System → Type 0 where
  pick :
      (i : ℕ) {k : ℕ} {m : Manager} {p : Pc}
      → Move s.manager k (s.pc i) m p
      → Step s k (record { manager = m; pc = update s.pc i p })

-- The systems that any interleaving reaches, with the number of ids drawn so far.
pub data Reach : ℕ → System → Type 0 where
  begin : Reach 0 init
  later : {n k : ℕ} {s t : System} → Reach n s → Step s k t → Reach (n + k) t

-- The id that a thread has drawn and not stored yet.
abbrev pub held : Pc → Option ℕ
held outside = none
held (numbered id) = some id
held (made id p) = some id
