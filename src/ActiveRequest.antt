-- ===== src/ActiveRequest.antt =====
-- `ActiveRequest` and `ActiveRequestManager` (src/transport/active_request.hpp and
-- active_request.cpp). A request is a shared object: sessions and the manager hold pointers to it, so
-- the objects stand on a heap, and the manager's map holds pointers. The sockets and the buffer of a
-- request are not modelled. Each method of the manager holds the mutex for its whole body, but for
-- `create_request`, which takes it once the object is made.
pub mod Tracking
pub mod Quiet
pub mod Threads
pub mod Expiry
use http2_server.Prelude.{
  ℕ, suc, ◌+◌, ◌-◌, ◌*◌, ◌%◌, ◌^◌, Option, none, some, List, [], ◌∷◌, Bool, true, false, ltb,
  if◌then◌else◌, length, nat_eq,
}
use http2_server.Prelude.Text.{Text}
use http2_server.Prelude.Map.{Map, lookup, insert, erase}
use http2_server.HttpClient.{HttpRequest, HttpMessage}

pub data RequestState : Type 0 where
  created parsing forwarding waiting_backend sending_response completed failed : RequestState

-- `start_time` is a reading of the steady clock, in nanoseconds.
pub record ActiveRequest : Type 0 where
  pub request_id : ℕ
  pub state : RequestState
  pub start_time : ℕ
  pub request : Option HttpRequest
  pub response : Option HttpMessage

abbrev pub Pointer : Type 0
Pointer = ℕ

pub record Manager : Type 0 where
  pub heap : Map Pointer ActiveRequest
  pub next_pointer : Pointer
  pub active_requests : Map ℕ Pointer
  pub next_request_id : ℕ

abbrev pub no_requests : Manager
no_requests = record { heap = []; next_pointer = 0; active_requests = []; next_request_id = 1 }

-- A write through a pointer.
abbrev pub write : Pointer → (ActiveRequest → ActiveRequest) → Manager → Manager
write p f m = elim (lookup p m.heap) [
  | none ↦ m
  | some r ↦ record m { heap = insert p (f r) m.heap }
]

unfoldable pub set_state : Pointer → RequestState → Manager → Manager
set_state p state m = write p (λ r. record r { state = state }) m

unfoldable pub set_request : Pointer → HttpRequest → Manager → Manager
set_request p request m = write p (λ r. record r { request = some request }) m

unfoldable pub set_response : Pointer → HttpMessage → Manager → Manager
set_response p response m = write p (λ r. record r { response = some response }) m

-- The constructor.
abbrev pub new_request : ℕ → ℕ → ActiveRequest
new_request id now = record {
  request_id = id;
  state = created;
  start_time = now;
  request = none;
  response = none;
}

-- `fetch_add` on an `std::atomic<uint64_t>`.
unfoldable pub generate_request_id : Manager → ℕ × Manager
generate_request_id m =
    (m.next_request_id, record m { next_request_id = (m.next_request_id + 1) % 2 ^ 64 })

-- `std::make_shared<ActiveRequest>(id, ...)`
abbrev pub make_request : ℕ → ℕ → Manager → Pointer × Manager
make_request id now m = (
  m.next_pointer,
  record m {
    heap = insert m.next_pointer (new_request id now) m.heap;
    next_pointer = m.next_pointer + 1;
  },
)

-- `active_requests_[id] = request`, under the mutex.
abbrev pub store_request : ℕ → Pointer → Manager → Manager
store_request id p m = record m { active_requests = insert id p m.active_requests }

unfoldable pub create_request : ℕ → Manager → Pointer × Manager
unfolding generate_request_id
create_request now m =
    let (id, counted) = generate_request_id m in
    let (p, made) = make_request id now counted in (p, store_request id p made)

-- `none` is the null pointer.
unfoldable pub get_request : ℕ → Manager → Option Pointer
get_request request_id m = lookup request_id m.active_requests

unfoldable pub complete_request : ℕ → Manager → Manager
unfolding set_state
complete_request request_id m = elim (lookup request_id m.active_requests) [
  | none ↦ m
  | some p ↦
      let done = set_state p completed m in
      record done { active_requests = erase request_id m.active_requests }
]

-- `std::chrono::seconds(30)`
abbrev pub timeout : ℕ
timeout = 30 * 10 ^ 9

-- `now - start_time > timeout`; the clock is steady, so the difference is not negative.
abbrev pub is_expired : ℕ → ActiveRequest → Bool
is_expired now r = ltb timeout (now - r.start_time)

expired_at : ℕ → Pointer → Manager → Bool
expired_at now p m = elim (lookup p m.heap) [ none ↦ false | some r ↦ is_expired now r ]

-- The loop: the entries that are left to look at, and the manager whose map has those kept so far.
sweep : ℕ → Map ℕ Pointer → Manager → Manager
sweep now [] m = m
sweep now ((id, p) ∷ rest) m =
    let old = expired_at now p m in
    sweep now rest (
      if old
      then record (set_state p failed m) { active_requests = erase id m.active_requests }
      else m)

unfoldable pub cleanup_expired_requests : ℕ → Manager → Manager
unfolding sweep expired_at
cleanup_expired_requests now m = sweep now m.active_requests m

unfoldable pub get_active_count : Manager → ℕ
get_active_count m = length m.active_requests
