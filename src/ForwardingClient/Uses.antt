-- ===== src/ForwardingClient/Uses.antt =====
-- What may be done with a forwarding client (src/examples/forwarding_client.cpp) over its life, and where
-- it reads through a null pointer.
use http2_server.Prelude.{
  ◌≡◌, ◌≢◌, refl, ◌∙◌, Option, none, some, List, [], ◌∷◌, Bool, true, false, ◌==◌, Bool-cases, inl,
  inr, arith,
}
use http2_server.Prelude.Text.{Text, codes}
use http2_server.Prelude.Int.{ℤ, pos, int_eq}
use http2_server.Json.{JsonLib}
use http2_server.HttpClient.{Beast, Connection}
use http2_server.ProxyClient.{Purpose}
use http2_server.ForwardingClient.{
  RegistrationProtocol, http1_only, http2_only, both, TunnelConfig, Captured, Forwarder, Action,
  started, new_forwarder, in_turn, set_active, send, register_with_server, unregister_from_server,
  register_with, unregister_with, start_tunnel, stop_tunnel, destroy,
}

-- What the user of a client may do with it.
pub data Use : Type 0 where
  start : TunnelConfig → Use
  stop : Use

module _ (J : JsonLib) (beast : Beast) where
  -- The client after some uses, each of which may throw; `none` is a read through a null pointer.
  unfoldable pub live : Forwarder → List Use → Option Forwarder
  live f [] = some f
  live f (start config ∷ us) = live (start_tunnel J beast config f).0 us
  live f (stop ∷ us) = elim (stop_tunnel J beast f) [ none ↦ none | some left ↦ live left.0 us ]

  -- The statement leaves the tunnel of the client as it is.
  abbrev Keeps : Action → Type 0
  Keeps a = (f : Forwarder) → (a f).0.active_tunnel ≡ f.active_tunnel

  in_turn-Keeps : (a b : Action) → Keeps a → Keeps b → Keeps (in_turn a b)
  unfolding in_turn
  in_turn-Keeps a b h k f = elim (Bool-cases (a f).1) [
    | inl e ↦ rw e (k (a f).0 ∙ h f)
    | inr e ↦ rw e (h f)
  ]

  started-Keeps : (k : Option (Connection Captured)) → Keeps (started k)
  started-Keeps none f = refl
  started-Keeps (some k) f = refl

  send-Keeps :
      (host method : Text) (port : ℤ) (purpose : Purpose) (body : Option Text)
      → Keeps (send J beast host port method purpose body)
  unfolding send
  send-Keeps host method port purpose none f = refl
  send-Keeps host method port purpose (some body) f = elim (Bool-cases (port == pos 8080)) [
    | inl e ↦ rw e refl
    | inr e ↦ rw e (
        started-Keeps
          (http2_server.HttpClient.send_request beast host port method (codes "/proxy/register")
            body (record { purpose = purpose; port = port }))
          f)
  ]

  register_with-Keeps :
      (config : TunnelConfig) (p : RegistrationProtocol) → Keeps (register_with J beast config p)
  unfolding register_with register_with_server
  register_with-Keeps config http1_only = send-Keeps _ _ _ _ _
  register_with-Keeps config http2_only = send-Keeps _ _ _ _ _
  register_with-Keeps config both = in_turn-Keeps _ _ (send-Keeps _ _ _ _ _) (send-Keeps _ _ _ _ _)

  unregister_with-Keeps :
      (config : TunnelConfig) (p : RegistrationProtocol) → Keeps (unregister_with J beast config p)
  unfolding unregister_with unregister_from_server
  unregister_with-Keeps config http1_only = send-Keeps _ _ _ _ _
  unregister_with-Keeps config http2_only = send-Keeps _ _ _ _ _
  unregister_with-Keeps config both =
      in_turn-Keeps _ _ (send-Keeps _ _ _ _ _) (send-Keeps _ _ _ _ _)

  set_active-Keeps : (b : Bool) → Keeps (set_active b)
  unfolding set_active
  set_active-Keeps b f = refl

  start_tunnel-tunnel :
      (config : TunnelConfig) (f : Forwarder)
      → (start_tunnel J beast config f).0.active_tunnel ≡ some config
  unfolding start_tunnel
  start_tunnel-tunnel config f =
      in_turn-Keeps _ _ (register_with-Keeps config config.protocol) (set_active-Keeps true) _

  stop_tunnel-tunnel :
      (config : TunnelConfig) (f : Forwarder)
      → f.active_tunnel ≡ some config
      → (left : Forwarder × Bool) × (stop_tunnel J beast f ≡ some left)
        × (left.0.active_tunnel ≡ some config)
  unfolding stop_tunnel
  stop_tunnel-tunnel config f h = elim (Bool-cases f.is_tunnel_active) [
    | inl e ↦ (
      in_turn (unregister_with J beast config config.protocol) (set_active false) f,
      simp (stop_tunnel, h, e) refl,
      in_turn-Keeps _ _ (unregister_with-Keeps config config.protocol) (set_active-Keeps false) f
          ∙ h,
    )
    | inr e ↦ ((f, true), simp (stop_tunnel, h, e) refl, h)
  ]

  destroy-defined :
      (config : TunnelConfig) (f : Forwarder)
      → f.active_tunnel ≡ some config
      → destroy J beast f ≢ none
  unfolding destroy
  destroy-defined config f h q = elim (Bool-cases f.is_tunnel_active) [
    | inl e ↦ let (left, k, t) = stop_tunnel-tunnel config f h in absurd (ground (arith, k))
    | inr e ↦ absurd (ground (arith, e))
  ]

  -- A client that has or had a tunnel never reads through the null pointer.
  live-tunnel :
      (config : TunnelConfig) (f : Forwarder) (us : List Use)
      → f.active_tunnel ≡ some config
      → (g : Forwarder) × (live f us ≡ some g) × (destroy J beast g ≢ none)
  unfolding live destroy
  live-tunnel config f [] h = (f, refl, destroy-defined config f h)
  live-tunnel config f (start next ∷ us) h =
      live-tunnel next (start_tunnel J beast next f).0 us (start_tunnel-tunnel next f)
  live-tunnel config f (stop ∷ us) h =
      let (left, e, k) = stop_tunnel-tunnel config f h in
      let (g, l, d) = live-tunnel config left.0 us k in (g, rw (live, e) l, d)

  -- A new client whose first use is to stop a tunnel reads through a null pointer. If its first use is
  -- to start one, then whatever follows, each use ends, with or without an exception, and so does the
  -- destructor.
  pub live_defined :
      (config : TunnelConfig) (us : List Use)
      → (live new_forwarder (stop ∷ us) ≡ none)
        × (g : Forwarder) × (live new_forwarder (start config ∷ us) ≡ some g)
        × (destroy J beast g ≢ none)
  unfolding live stop_tunnel
  live_defined config us =
      let (g, l, d) =
        live-tunnel config (start_tunnel J beast config new_forwarder).0 us
          (start_tunnel-tunnel config new_forwarder) in
      (refl, g, l, d)
