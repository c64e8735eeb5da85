-- ===== src/HttpClient/Chain.antt =====
-- The chain of `HttpClient` (src/transport/http_client.cpp) as a whole: when it calls back, and with
-- what.
use http2_server.Prelude.{
  ◌<◌, Option-cases, inl, inr, ℕ, ◌+◌, ◌-◌, ◌≤◌, ◌≡◌, refl, Option, none, some, List, [], ◌∷◌, ◌++◌,
  arith, length,
}
use http2_server.Prelude.Decimal.{to_string}
use http2_server.Prelude.Text.{Text, codes}
use http2_server.Prelude.Int.{ℤ, pos}
use http2_server.HttpClient.{
  Phase, resolving, connecting, writing, reading, finished, Connection, Completion, Outcome,
  complete, handle, received, proxy_response, Beast, Refuses, build_request, send_request,
}

-- How many completions a phase still waits for.
abbrev pub waits_for : Phase → ℕ
waits_for resolving = 4
waits_for connecting = 3
waits_for writing = 2
waits_for reading = 1
waits_for finished = 0

-- One callback is owed until the end of the chain.
abbrev pub owed : Phase → ℕ
owed finished = 0
owed _ = 1

-- The plain reading of a chain: the first operation that failed decides, and its message stands
-- behind what the program says of that operation.
abbrev pub first_error : List (Text × Completion) → Option Text
first_error [] = none
first_error ((what, c) ∷ rest) = elim c.ec [
  | some message ↦ some (what ++ message)
  | none ↦ first_error rest
]

abbrev pub failed_with : Text → Outcome
failed_with error = record { response = proxy_response (pos 0) []; error = error }

abbrev pub calls : Option Outcome → ℕ
calls none = 0
calls (some o) = 1

module _ {C : Type 0} where
  -- The connection after some completions, and the calls of the callback on the way.
  unfoldable pub run : Connection C → List Completion → Connection C × List Outcome
  run k [] = (k, [])
  run k (c ∷ cs) =
      let (next, outcome) = complete k c in
      let (last, later) = run next cs in (last, elim outcome [ none ↦ later | some o ↦ o ∷ later ])

  pub complete-owed :
      (k : Connection C) (c : Completion)
      → (calls (complete k c).1 + owed (complete k c).0.phase ≡ owed k.phase)
        × (waits_for (complete k c).0.phase ≤ waits_for k.phase - 1)
  unfolding complete
  complete-owed k c = ground arith

  -- Whatever completes, the calls made and the call still owed add up to the call owed at first: the
  -- callback is never called twice. Each completion brings the end nearer by one, so four
  -- completions end every chain.
  run-owed :
      (k : Connection C) (cs : List Completion)
      → (length (run k cs).1 + owed (run k cs).0.phase ≡ owed k.phase)
        × (waits_for (run k cs).0.phase ≤ waits_for k.phase - length cs)
  unfolding run
  run-owed k [] = ground arith
  run-owed k (c ∷ cs) = ground (arith, run-owed (complete k c).0 cs, complete-owed k c)

  run_finished : (k : Connection C) (cs : List Completion) → k.phase ≡ finished → (run k cs).1 ≡ []
  unfolding run complete
  run_finished k [] e = refl
  run_finished k (c ∷ cs) e =
      ground (arith, run_finished (record k { phase = (handle k.phase c).0 }) cs)

  -- From the start, once four completions are in, the callback has been called exactly once: with
  -- the error of the first operation that failed, or with the message that was read and no error.
  pub run_outcome :
      (k : Connection C) (c₁ c₂ c₃ c₄ : Completion) (cs : List Completion)
      → k.phase ≡ resolving
      → (run k (c₁ ∷ c₂ ∷ c₃ ∷ c₄ ∷ cs)).1
        ≡ (elim (first_error (
            (codes "Failed to resolve host: ", c₁)
            ∷ (codes "Failed to connect: ", c₂)
            ∷ (codes "Failed to write request: ", c₃)
            ∷ (codes "Failed to read response: ", c₄)
            ∷ [])) [ some error ↦ failed_with error | none ↦ received c₄.message ])
          ∷ []
  unfolding run complete
  run_outcome k c₁ c₂ c₃ c₄ cs e = ground (arith, run_finished (record k { phase = finished }) cs)

-- The end of a read ends the call, with or without an error.
pub complete-reading :
    {C : Type 0} (k : Connection C) (c : Completion)
    → k.phase ≡ reading
    → (o : Outcome) × ((complete k c).1 ≡ some o)
unfolding complete
complete-reading k c h = elim (Option-cases (complete k c).1) [
  | inl e ↦ absurd (ground arith)
  | inr found ↦ found
]

-- A call is started for a verb that allows the body, if the host fits a field.
pub send_request-some :
    {C : Type 0} (beast : Beast) (host method path body verb : Text) (port : ℤ) (c : C)
    → beast.verb method ≡ some verb
    → ¬ Refuses verb body
    → length host < 65534
    → (k : Connection C) × (send_request beast host port method path body c ≡ some k)
unfolding send_request
send_request-some beast host method path body verb port c known allowed short =
    elim (Option-cases (beast.prepare_payload (build_request verb host path body))) [
      | inl e ↦ absurd (allowed (beast.prepare_payload-none _ e))
      | inr (r, e) ↦ (
        record {
          host = host;
          service = to_string port;
          request = r;
          phase = resolving;
          callback = c;
        },
        rw (send_request, known, beast.fits-true host short, e) refl,
      )
    ]
