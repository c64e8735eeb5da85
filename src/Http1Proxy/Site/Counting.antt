-- ===== src/Http1Proxy/Site/Counting.antt =====
-- Which requests the manager has while many sessions (src/transport/http1_proxy.cpp) go on at once.
use http2_server.Prelude.{
  member_at, replace_at-same, ◌≤◌, subst, ℕ, ◌+◌, ◌^◌, ◌<◌, ◌≡◌, refl, sym, ap, ◌∙◌, some, List, [],
  ◌∷◌, ◌++◌, true, false, if◌then◌else◌, nat_eq, Option-cases, Bool-cases, inl, inr, length, not,
  arith, keep_if,
}
use http2_server.Prelude.Map.{lookup, erase, Distinct, Fresh-of_lookup, lookup_of_mem}
use http2_server.Json.{JsonLib}
use http2_server.Registry.{Registry, Order}
use http2_server.HttpClient.{HttpMessage}
use http2_server.ActiveRequest.{parsing, Manager, create_request, get_request, get_active_count}
use http2_server.ActiveRequest.Tracking.{WellFormed, create_request_lem, no_requests-WellFormed}
use http2_server.Http1Proxy.{
  Phase, ended, Completion, new_session, start, read_request, on_completion,
}
use http2_server.Http1Proxy.Site.{
  Member, Site, new_site, member_of, view, Event, connected, completion, registry_changed, accept,
  with_session, complete_at, happen, life,
}
use http2_server.Http1Proxy.Site.Moves.{on_completion-Moves}
use http2_server.Http1Proxy.Site.{is_ended}
use http2_server.ActiveRequest.Quiet.{set_state-Quiet}
use http2_server.Http1Proxy.Site.Entries.{
  open_entries, insert-Fresh, open_entries-append, member_at-mem, replace_at-open,
  length-open_entries,
}

-- The manager has exactly those.
pub record Consistent (s : Site) : Type 0 where
  pub well : WellFormed s.manager
  pub entries : s.manager.active_requests ≡ open_entries s.members

-- A step keeps the site consistent, and counts at most one request.
record Steps (s t : Site) : Type 0 where
  consistent : Consistent t
  counted : t.manager.next_request_id ≤ s.manager.next_request_id + 1

created-entries :
    (now : ℕ) (m : Manager)
    → WellFormed m
    → m.next_request_id + 1 < 2 ^ 64
    → (create_request now m).1.active_requests
      ≡ m.active_requests ++ (m.next_request_id, m.next_pointer) ∷ []
unfolding create_request get_request
created-entries now m w h = insert-Fresh m.next_request_id m.next_pointer m.active_requests (
    Fresh-of_lookup m.next_request_id m.active_requests
      (create_request_lem now m m.next_request_id w h).0)

created-next :
    (now : ℕ) (m : Manager)
    → m.next_request_id + 1 < 2 ^ 64
    → (create_request now m).1.next_request_id ≡ m.next_request_id + 1
unfolding create_request
created-next now m h = omega arith

accept-Steps :
    (now : ℕ) (s : Site)
    → Consistent s
    → s.manager.next_request_id + 1 < 2 ^ 64
    → Steps s (accept now s)
unfolding accept start read_request new_session create_request
accept-Steps now s k h =
    let created = create_request now s.manager in
    let quiet =
      set_state-Quiet created.0 parsing created.1 (create_request_lem now s.manager 0 k.well h).3 in
    record {
      consistent = record {
        well = quiet.well;
        entries =
            quiet.entries
            ∙ created-entries now s.manager k.well h
            ∙ ap (λ t. t ++ (s.manager.next_request_id, s.manager.next_pointer) ∷ []) k.entries
            ∙ sym (open_entries-append s.members _ refl);
      };
      counted = omega (arith, quiet.next, created-next now s.manager h);
    }

ended_of : (p : Phase) → is_ended p ≡ true → p ≡ ended
ended_of ended h = refl
ended_of _ h = cc

module _ (J : JsonLib) (order : Order) (prepare_payload : HttpMessage → HttpMessage) where
  open-Steps :
      (i : ℕ) (c : Completion) (s : Site) (x : Member)
      → Consistent s
      → member_at i s.members ≡ some x
      → is_ended x.phase ≡ false
      → Steps s (with_session i (on_completion J order prepare_payload x.phase c (view s x)) s)
  unfolding get_request
  open-Steps i c s x k h o =
      let d = subst Distinct k.entries k.well.distinct in
      let found =
        ap (lookup x.request_id) k.entries
        ∙ lookup_of_mem x.request_id x.active_request (open_entries s.members) d
            (member_at-mem i s.members x h o) in
      let t = on_completion J order prepare_payload x.phase c (view s x) in
      let moves =
        on_completion-Moves J order prepare_payload x.phase c (view s x) refl o k.well found in
      record {
        consistent = record {
          well = moves.well;
          entries =
              moves.entries
              ∙ ap (λ m. if is_ended t.phase then erase x.request_id m else m) k.entries
              ∙ sym (replace_at-open i s.members x (member_of t) h o moves.named moves.pointer d);
        };
        counted = omega (arith, moves.next);
      }

  ended-Steps :
      (i : ℕ) (c : Completion) (s : Site) (x : Member)
      → Consistent s
      → member_at i s.members ≡ some x
      → x.phase ≡ ended
      → Steps s (with_session i (on_completion J order prepare_payload x.phase c (view s x)) s)
  unfolding on_completion
  ended-Steps i c s x k h e =
      subst (λ p. Steps s (with_session i (on_completion J order prepare_payload p c (view s x)) s))
        (sym e)
        (record {
          consistent = record {
            well = k.well;
            entries = k.entries ∙ ap open_entries (sym (replace_at-same i s.members x h));
          };
          counted = omega arith;
        })

  complete_at-Steps :
      (i : ℕ) (c : Completion) (s : Site)
      → Consistent s
      → Steps s (complete_at J order prepare_payload i c s)
  unfolding complete_at
  complete_at-Steps i c s k = elim (Option-cases (member_at i s.members)) [
    | inl e ↦ rw (complete_at, e) (record { consistent = k; counted = omega arith })
    | inr (x, e) ↦
        rw (complete_at, e)
          (elim (Bool-cases (is_ended x.phase)) [
            | inl o ↦ ended-Steps i c s x k e (ended_of x.phase o)
            | inr o ↦ open-Steps i c s x k e o
          ])
  ]

  happen-Steps :
      (e : Event) (s : Site)
      → Consistent s
      → s.manager.next_request_id + 1 < 2 ^ 64
      → Steps s (happen J order prepare_payload e s)
  unfolding happen
  happen-Steps (connected now) s k h = accept-Steps now s k h
  happen-Steps (completion i c) s k h = complete_at-Steps i c s k
  happen-Steps (registry_changed r) s k h = record {
    consistent = record { well = k.well; entries = k.entries };
    counted = omega arith;
  }

  life-Consistent :
      (es : List Event) (s : Site)
      → Consistent s
      → s.manager.next_request_id + length es < 2 ^ 64
      → Consistent (life J order prepare_payload s es)
  unfolding life
  life-Consistent [] s k h = k
  life-Consistent (e ∷ es) s k h =
      let step = happen-Steps e s k (omega arith) in
      life-Consistent es (happen J order prepare_payload e s) step.consistent
        (omega (arith, step.counted))

  -- From an empty manager, after any fewer than 2^64 - 1 connections, completions and changes of the
  -- registry, interleaved in any way: the manager has exactly the requests of the sessions that have
  -- not ended, each under its own id, and counts as many.
  pub life_counts :
      (r : Registry) (es : List Event)
      → length es + 1 < 2 ^ 64
      → let s = life J order prepare_payload (new_site r) es in
        (s.manager.active_requests ≡ open_entries s.members)
        × (get_active_count s.manager ≡ length (keep_if (λ x. not (is_ended x.phase)) s.members))
        × Distinct s.manager.active_requests
  unfolding get_active_count
  life_counts r es h =
      let k =
        life-Consistent es (new_site r) (record { well = no_requests-WellFormed; entries = refl })
          (omega arith) in
      (
        k.entries,
        ap length k.entries
            ∙ length-open_entries (life J order prepare_payload (new_site r) es).members,
        k.well.distinct,
      )
