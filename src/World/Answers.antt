-- ===== src/World/Answers.antt =====
-- Counting answers: how many replies a stream of a session has been sent, or is still owed by a call
-- to a backend that is under way. One rule for each way to build an action of `Exec`.
use http2_server.Prelude.{
  ℕ, ◌+◌, ◌≡◌, refl, Option, none, some, List, [], ◌∷◌, ◌++◌, Bool, true, false, ◌&&◌, ◌==◌,
  if◌then◌else◌, arith, nat_eq,
}
use http2_server.Prelude.Int.{ℤ, int_eq}
use http2_server.Common.{HttpResponse}
use http2_server.HttpClient.{Connection}
use http2_server.HttpClient.Chain.{owed}
use http2_server.World.{
  World, Exec, ResponseSender, Reply, Captured, pure, lift, gets, modify, try_catch, respond, ◌>>=◌,
}

module _ (t : ResponseSender) (j : ℤ) where
  -- One, if a sender and a stream are those that are counted.
  abbrev pub one : ResponseSender → ℤ → ℕ
  one s i = if (s == t) && (i == j) then 1 else 0

  unfoldable pub sent_to : List Reply → ℕ
  sent_to [] = 0
  sent_to (r ∷ rs) = one r.sender r.stream_id + sent_to rs

  unfoldable pub pending_for : List (Connection Captured) → ℕ
  pending_for [] = 0
  pending_for (k ∷ ks) =
      (if (k.callback.sender == t) && (k.callback.stream_id == j) then owed k.phase else 0)
      + pending_for ks

  abbrev pub answered : World → ℕ
  answered w = sent_to w.sent + pending_for w.calls

  pub sent_to-append : (rs qs : List Reply) → sent_to (rs ++ qs) ≡ sent_to rs + sent_to qs
  unfolding sent_to
  sent_to-append [] qs = omega arith
  sent_to-append (r ∷ rs) qs = omega (arith, sent_to-append rs qs)

  pub pending_for-append :
      (ks ls : List (Connection Captured))
      → pending_for (ks ++ ls) ≡ pending_for ks + pending_for ls
  unfolding pending_for
  pending_for-append [] ls = omega arith
  pending_for-append (k ∷ ks) ls = omega (arith, pending_for-append ks ls)

abbrev pub unless_thrown : {A : Type 0} → Option A → ℕ → ℕ
unless_thrown none n = 0
unless_thrown (some a) n = n

-- The action changes no count.
pub record Quiet {A : Type 0} (m : Exec A) : Type 0 where
  pub unchanged : (w : World) (t : ResponseSender) (j : ℤ) → answered t j (m w).1 ≡ answered t j w

-- The action answers this stream once, and no other; or it throws and answers none.
pub record Counts {A : Type 0} (s : ResponseSender) (i : ℤ) (m : Exec A) : Type 0 where
  pub counted :
      (w : World) (t : ResponseSender) (j : ℤ)
      → answered t j (m w).1 ≡ answered t j w + unless_thrown (m w).0 (one t j s i)

-- The action does not throw.
pub record Total {A : Type 0} (m : Exec A) : Type 0 where
  pub returns : (w : World) → (a : A) × ((m w).0 ≡ some a)

pub Quiet-lift : {A : Type 0} (o : Option A) → Quiet (lift o)
unfolding lift
Quiet-lift o = record { unchanged = λ w t j. refl }

pub Quiet-gets : {A : Type 0} (f : World → A) → Quiet (gets f)
unfolding gets
Quiet-gets f = record { unchanged = λ w t j. refl }

pub Quiet-pure : {A : Type 0} (a : A) → Quiet (pure a)
unfolding pure
Quiet-pure a = record { unchanged = λ w t j. refl }

module _ {A B : Type 0} (s : ResponseSender) (i : ℤ) where
  pub Counts-bind-lift :
      (o : Option A) (f : A → Exec B)
      → ((a : A) → o ≡ some a → Counts s i (f a))
      → Counts s i (lift o >>= f)
  unfolding ◌>>=◌
  Counts-bind-lift none f h = record { counted = λ w t j. omega arith }
  Counts-bind-lift (some a) f h = record { counted = λ w t j. (h a refl).counted w t j }

  pub Counts-bind :
      (m : Exec A) (f : A → Exec B) → Quiet m → ((a : A) → Counts s i (f a)) → Counts s i (m >>= f)
  unfolding ◌>>=◌
  Counts-bind m f q h = record {
    counted = λ w t j.
        omega
          (arith, q.unchanged w t j, (Counts-bind-lift (m w).0 f (λ a _. h a)).counted (m w).1 t j);
  }

pub Quiet-modify :
    (f : World → World)
    → ((w : World) → (f w).sent ≡ w.sent)
    → ((w : World) → (f w).calls ≡ w.calls)
    → Quiet (modify f)
unfolding modify
Quiet-modify f hs hc = record { unchanged = λ w t j. rw (hs w, hc w) refl }

module _ (s : ResponseSender) (i : ℤ) where
  pub Counts-respond : (r : HttpResponse) → Counts s i (respond s i r)
  unfolding respond sent_to
  Counts-respond r = record {
    counted = λ w t j. omega (
      arith,
      sent_to-append t j w.sent (record { sender = s; stream_id = i; response = r } ∷ []),
    );
  }

  pub Counts-if :
      {A : Type 0} (b : Bool) (m n : Exec A)
      → Counts s i m
      → Counts s i n
      → Counts s i (if b then m else n)
  Counts-if true m n cm cn = cm
  Counts-if false m n cm cn = cn

  Counts-handled :
      {A : Type 0} (o : Option A) (h : Exec A) (w w' : World)
      → Counts s i h
      → ((t : ResponseSender) (j : ℤ)
          → answered t j w' ≡ answered t j w + unless_thrown o (one t j s i))
      → (t : ResponseSender) (j : ℤ)
      → answered t j (try_catch (λ _. (o, w')) h w).1
        ≡ answered t j w + unless_thrown (try_catch (λ _. (o, w')) h w).0 (one t j s i)
  unfolding try_catch
  Counts-handled none h w w' ch e t j = omega (arith, e t j, ch.counted w' t j)
  Counts-handled (some a) h w w' ch e t j = e t j

  pub Counts-try :
      {A : Type 0} (m h : Exec A) → Counts s i m → Counts s i h → Counts s i (try_catch m h)
  unfolding try_catch
  Counts-try m h cm ch = record {
    counted = λ w. Counts-handled (m w).0 h w (m w).1 ch (cm.counted w);
  }

Total-handled :
    {A : Type 0} (o : Option A) (h : Exec A) (w : World)
    → Total h
    → (a : A) × ((try_catch (λ _. (o, w)) h w).0 ≡ some a)
unfolding try_catch
Total-handled none h w th = th.returns w
Total-handled (some a) h w th = (a, refl)

-- A handler that does not throw leaves nothing to throw.
pub Total-try : {A : Type 0} (m h : Exec A) → Total h → Total (try_catch m h)
unfolding try_catch
Total-try m h th = record { returns = λ w. Total-handled (m w).0 h (m w).1 th }

pub Total-respond : (s : ResponseSender) (i : ℤ) (r : HttpResponse) → Total (respond s i r)
unfolding respond
Total-respond s i r = record { returns = λ w. (tt, refl) }

pub ruleset counts_rules =
    (Quiet-lift, Quiet-gets, Quiet-pure, Counts-respond, Counts-if, Counts-bind, Counts-try)
