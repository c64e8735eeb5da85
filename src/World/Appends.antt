-- ===== src/World/Appends.antt =====
-- What a handler replies is added at the end of `sent`, and goes to the sender that it was given. One
-- rule for each way to build an action of `Exec`.
use http2_server.Prelude.{
  ◌≡◌, refl, sym, ap, ◌∙◌, Option, none, some, List, [], ◌∷◌, ◌++◌, Bool, true, false,
  if◌then◌else◌, All, append_assoc, append-nil,
}
use http2_server.Prelude.Int.{ℤ}
use http2_server.Common.{HttpResponse}
use http2_server.World.{
  World, Exec, ResponseSender, Reply, lift, gets, modify, try_catch, respond, ◌>>=◌,
}

-- The replies of one sender that come after some others.
pub record Extends (s : ResponseSender) (old new : List Reply) : Type 0 where
  pub added : List Reply
  pub extended : new ≡ old ++ added
  pub own : All (λ r. r.sender ≡ s) added

All-append {ℓ κ} :
    {A : Type ℓ} (P : A → Type κ) (xs ys : List A) → All P xs → All P ys → All P (xs ++ ys)
All-append P [] ys h k = k
All-append P (x ∷ xs) ys h k = (h.0, All-append P xs ys h.1 k)

pub Extends-none : (s : ResponseSender) {old new : List Reply} → new ≡ old → Extends s old new
Extends-none s {old} e = record { added = []; extended = e ∙ sym (append-nil old); own = tt }

pub Extends-then :
    {s : ResponseSender} {old mid new : List Reply}
    → Extends s old mid
    → Extends s mid new
    → Extends s old new
Extends-then {s} {old} a b = record {
  added = a.added ++ b.added;
  extended = b.extended ∙ ap (λ x. x ++ b.added) a.extended ∙ append_assoc old a.added b.added;
  own = All-append _ a.added b.added a.own b.own;
}

pub record Appends {A : Type 0} (s : ResponseSender) (m : Exec A) : Type 0 where
  pub extends : (w : World) → Extends s w.sent (m w).1.sent

module _ (s : ResponseSender) where
  pub Appends-lift : {A : Type 0} (o : Option A) → Appends s (lift o)
  unfolding lift
  Appends-lift o = record { extends = λ w. Extends-none s refl }

  pub Appends-gets : {A : Type 0} (f : World → A) → Appends s (gets f)
  unfolding gets
  Appends-gets f = record { extends = λ w. Extends-none s refl }

  pub Appends-modify :
      (f : World → World) → ((w : World) → (f w).sent ≡ w.sent) → Appends s (modify f)
  unfolding modify
  Appends-modify f h = record { extends = λ w. Extends-none s (h w) }

  pub Appends-respond : (i : ℤ) (r : HttpResponse) → Appends s (respond s i r)
  unfolding respond
  Appends-respond i r = record {
    extends = λ w. record { added = _; extended = refl; own = (refl, tt) };
  }

  pub Appends-if :
      {A : Type 0} (b : Bool) (m n : Exec A)
      → Appends s m
      → Appends s n
      → Appends s (if b then m else n)
  Appends-if true m n p q = p
  Appends-if false m n p q = q

  Appends-after :
      {A B : Type 0} (o : Option A) (f : A → Exec B)
      → ((a : A) → Appends s (f a))
      → Appends s (lift o >>= f)
  unfolding ◌>>=◌
  Appends-after none f h = record { extends = λ w. Extends-none s refl }
  Appends-after (some a) f h = record { extends = λ w. (h a).extends w }

  pub Appends-bind :
      {A B : Type 0} (m : Exec A) (f : A → Exec B)
      → Appends s m
      → ((a : A) → Appends s (f a))
      → Appends s (m >>= f)
  unfolding ◌>>=◌
  Appends-bind m f p h = record {
    extends = λ w. Extends-then (p.extends w) ((Appends-after (m w).0 f h).extends (m w).1);
  }

  Appends-handled :
      {A : Type 0} (o : Option A) (h : Exec A) (w w' : World)
      → Appends s h
      → Extends s w.sent w'.sent
      → Extends s w.sent (try_catch (λ _. (o, w')) h w).1.sent
  unfolding try_catch
  Appends-handled none h w w' p e = Extends-then e (p.extends w')
  Appends-handled (some a) h w w' p e = e

  pub Appends-try :
      {A : Type 0} (m h : Exec A) → Appends s m → Appends s h → Appends s (try_catch m h)
  unfolding try_catch
  Appends-try m h p q = record {
    extends = λ w. Appends-handled (m w).0 h w (m w).1 q (p.extends w);
  }

pub ruleset appends_rules =
    (Appends-lift, Appends-gets, Appends-respond, Appends-if, Appends-bind, Appends-try)
