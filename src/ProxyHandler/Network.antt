-- ===== src/ProxyHandler/Network.antt =====
-- What a turn of the event loop does to the calls of `http_client_` and to the replies.
use http2_server.Prelude.{
  ℕ, zero, suc, ◌+◌, ◌≡◌, refl, Option, none, some, List, [], ◌∷◌, arith, nat_eq,
}
use http2_server.Prelude.Int.{ℤ, int_eq}
use http2_server.HttpClient.{Connection, Completion, Outcome, complete}
use http2_server.HttpClient.Chain.{complete-owed}
use http2_server.World.{World, ResponseSender, Captured, respond}
use http2_server.World.Answers.{Counts, Counts-if, Counts-respond, answered, one, pending_for}
use http2_server.ProxyHandler.{complete_at, call_back, network_event, forward_reply}

abbrev called_for : ResponseSender → ℤ → Option (Captured × Outcome) → ℕ
called_for t j none = 0
called_for t j (some (c, o)) = one t j c.sender c.stream_id

-- A call of the callback settles what its connection owed.
complete_at-pending :
    (t : ResponseSender) (j : ℤ) (i : ℕ) (c : Completion) (ks : List (Connection Captured))
    → called_for t j (complete_at i c ks).1 + pending_for t j (complete_at i c ks).0
      ≡ pending_for t j ks
unfolding complete_at pending_for
complete_at-pending t j i c [] = omega arith
complete_at-pending t j zero c (k ∷ ks) = unfold complete in ground (arith, complete-owed k c)
complete_at-pending t j (suc i) c (k ∷ ks) = omega (arith, complete_at-pending t j i c ks)

forward_reply-Counts :
    (c : Captured) (o : Outcome) → Counts c.sender c.stream_id (forward_reply c o)
unfolding forward_reply
forward_reply-Counts c o = Counts-if _ _ _ _ _ (Counts-respond _ _ _) (Counts-respond _ _ _)

forward_reply-returns : (c : Captured) (o : Outcome) (w : World) → (forward_reply c o w).0 ≡ some tt
unfolding forward_reply respond
forward_reply-returns c o w = ground arith

call_back-answers :
    (called : Option (Captured × Outcome)) (w : World) (t : ResponseSender) (j : ℤ)
    → ((call_back called w).0 ≡ some tt)
      × (answered t j (call_back called w).1 ≡ answered t j w + called_for t j called)
unfolding call_back
call_back-answers none w t j = unfold http2_server.World.pure in (refl, omega arith)
call_back-answers (some (c, o)) w t j =
    ground (arith, forward_reply-returns c o w, (forward_reply-Counts c o).counted w t j)

-- A completion throws nothing and changes no count: what it sends is no longer pending.
pub network_event_answers :
    (i : ℕ) (c : Completion) (w : World) (t : ResponseSender) (j : ℤ)
    → ((network_event i c w).0 ≡ some tt) × (answered t j (network_event i c w).1 ≡ answered t j w)
unfolding network_event
network_event_answers i c w t j = ground (
  arith,
  call_back-answers (complete_at i c w.calls).1 (record w { calls = (complete_at i c w.calls).0 }) t
      j,
  complete_at-pending t j i c w.calls,
)
