-- ===== src/Executor/Rules.antt =====
-- Postconditions of actions over their log, with one rule for each way to build an action.
use cubical.Cubical.Foundations.Prelude.{subst, sym}
use mini_agent.Prelude.{
  List, Result, Bool, ◌≡◌, ◌++◌, ok, true, ◌∷◌, err, false, [], refl, Option, some, none,
}
use mini_agent.Executor.Effects.{
  Exec, State, Outcome, done, raised, cancelled, Failure, Event, Reply, returned, failed_call,
  cancelled_call, outcome_of, pure, raise, check, ask, await, require, on_cancel, resume, continue,
  ◌>>=◌, ◌>>◌,
}
use mini_agent.Executor.Records.{Request}
use mini_agent.Executor.Protocol.{Phase, Step, Runs, next, Legal}

abbrev pub Pred : Type 1
Pred = List Event → Type 0

-- From a log with `P`: on a return `D`, on a cancellation `C`, and on an exception a legal log.
abbrev pub Post : {A : Type 0} → Request → (A → Pred) → Pred → Outcome A → Pred
Post q D C (done a) l = D a l
Post q D C (raised e) l = Legal q l
Post q D C cancelled l = C l

pub record Ensures {A W : Type 0} (q : Request) (P : Pred) (m : Exec W A) (D : A → Pred) (C : Pred)
    : Type 0 where
  pub at : (s : State W) → P s.log → Post q D C (m s).0 (m s).1.log

await_post :
    {A : Type 0} (q : Request) (b : Reply A → Phase) (C : Pred) (event : Reply A → Event)
    (r : Reply A) (l : List Event)
    → ((l : List Event) → Runs q l (b cancelled_call) → C l)
    → Runs q (l ++ event r ∷ []) (b r)
    → Post q (λ x l. Runs q l (b (returned x))) C (outcome_of r) (l ++ event r ∷ [])
await_post q b C event (returned x) l c h = h
await_post q b C event failed_call l c h = (b failed_call, h)
await_post q b C event cancelled_call l c h = c _ h

pub Legal-post :
    {A : Type 0} {q : Request} {l : List Event} (o : Outcome A)
    → Post q (λ x l. Legal q l) (Legal q) o l
    → Legal q l
Legal-post (done a) h = h
Legal-post (raised e) h = h
Legal-post cancelled h = h

weaken_post :
    {A : Type 0} (q : Request) (l : List Event) (C : Pred) (b : Phase) (o : Outcome A)
    → Post q (λ x l. Runs q l b) C o l
    → Post q (λ x. Legal q) C o l
weaken_post q l C b (done a) h = (b, h)
weaken_post q l C b (raised e) h = h
weaken_post q l C b cancelled h = h

module _ {W : Type 0} (q : Request) where
  pub Ensures-pure :
      {A : Type 0} {P : Pred} (a : A) {D : A → Pred} (C : Pred)
      → ((l : List Event) → P l → D a l)
      → Ensures {W = W} q P (pure a) D C
  unfolding pure
  Ensures-pure a C f = record { at = λ s h. f s.log h }

  pub Ensures-raise :
      {A : Type 0} (a : Phase) (f : Failure) {D : A → Pred} (C : Pred)
      → Ensures {W = W} q (λ l. Runs q l a) (raise f) D C
  unfolding raise
  Ensures-raise a f C = record { at = λ s h. (a, h) }

  pub then_check :
      {E A B : Type 0} {R : B → Pred} {C : Pred} (a : Phase) (r : Result E A) (f : A → Exec W B)
      → ((x : A) → r ≡ ok x → Ensures q (λ l. Runs q l a) (f x) R C)
      → Ensures q (λ l. Runs q l a) (check r >>= f) R C
  unfolding check ◌>>=◌
  then_check a (ok x) f k = record { at = λ s h. (k x refl).at s h }
  then_check a (err e) f k = record { at = λ s h. (a, h) }

  pub then_require :
      {B : Type 0} {R : B → Pred} {C : Pred} (a : Phase) (b : Bool) (e : Failure) (m : Exec W B)
      → (b ≡ true → Ensures q (λ l. Runs q l a) m R C)
      → Ensures q (λ l. Runs q l a) (require b e >> m) R C
  unfolding require ◌>>=◌
  then_require a true e m k = record { at = λ s h. (k refl).at s h }
  then_require a false e m k = record { at = λ s h. (a, h) }

  pub then_ask :
      {A B : Type 0} {P : Pred} {R : B → Pred} {C : Pred} (f : W → A × W) (g : A → Exec W B)
      → ((x : A) → Ensures q P (g x) R C)
      → Ensures q P (ask f >>= g) R C
  unfolding ask ◌>>=◌
  then_ask f g k = record {
    at = λ s h. (k (f s.world).0).at (record s { world = (f s.world).1 }) h;
  }

  pub Ensures-await :
      {A : Type 0} (a : Phase) (b : Reply A → Phase) (f : W → Reply A × W) (event : Reply A → Event)
      (C : Pred)
      → ((r : Reply A) → Step q a (event r) (b r))
      → ((l : List Event) → Runs q l (b cancelled_call) → C l)
      → Ensures q (λ l. Runs q l a) (await f event) (λ x l. Runs q l (b (returned x))) C
  unfolding await
  Ensures-await a b f event C step c = record {
    at = λ s h.
        await_post q b C event (f s.world).0 s.log c
          (next (event (f s.world).0) h (step (f s.world).0));
  }

  pub bind_post :
      {A B : Type 0} {D : A → Pred} {R : B → Pred} {C : Pred} (o : Outcome A) (f : A → Exec W B)
      (s : State W)
      → Post q D C o s.log
      → ((a : A) → Ensures q (D a) (f a) R C)
      → Post q R C (continue o f s).0 (continue o f s).1.log
  bind_post (done a) f s h k = (k a).at s h
  bind_post (raised e) f s h k = h
  bind_post cancelled f s h k = h

  pub Ensures-bind :
      {A B : Type 0} {P : Pred} {D : A → Pred} {R : B → Pred} {C : Pred} (m : Exec W A)
      (f : A → Exec W B)
      → Ensures q P m D C
      → ((a : A) → Ensures q (D a) (f a) R C)
      → Ensures q P (m >>= f) R C
  unfolding ◌>>=◌
  Ensures-bind {D} {R} {C} m f h k = record {
    at = λ s p. bind_post {D = D} {R = R} {C = C} (m s).0 f (m s).1 (h.at s p) k;
  }

  pub then_await :
      {A B : Type 0} {R : B → Pred} {C : Pred} (a : Phase) (b : Reply A → Phase)
      (f : W → Reply A × W) (event : Reply A → Event) (g : A → Exec W B)
      → ((r : Reply A) → Step q a (event r) (b r))
      → ((l : List Event) → Runs q l (b cancelled_call) → C l)
      → ((x : A) → Ensures q (λ l. Runs q l (b (returned x))) (g x) R C)
      → Ensures q (λ l. Runs q l a) (await f event >>= g) R C
  then_await {C} a b f event g step c k =
      Ensures-bind (await f event) g (Ensures-await a b f event C step c) k

  resume-post :
      {A : Type 0} (R : A → Pred) {C : Pred} (o : Outcome A) (handler : Exec W (Unit {0}))
      (s : State W)
      → Post q R C o s.log
      → Ensures q C handler (λ x l. Legal q l) (Legal q)
      → Post q R (Legal q) (resume o handler s).0 (resume o handler s).1.log
  resume-post R (done a) handler s h k = h
  resume-post R (raised e) handler s h k = h
  resume-post R cancelled handler s h k = Legal-post (handler s).0 (k.at s h)

  pub Ensures-on_cancel :
      {A : Type 0} {P : Pred} {R : A → Pred} {C : Pred} (m : Exec W A) (handler : Exec W (Unit {0}))
      → Ensures q P m R C
      → Ensures q C handler (λ x l. Legal q l) (Legal q)
      → Ensures q P (on_cancel m handler) R (Legal q)
  unfolding on_cancel
  Ensures-on_cancel {R} {C} m handler h k = record {
    at = λ s p. resume-post R {C = C} (m s).0 handler (m s).1 (h.at s p) k;
  }

  pub Ensures-Legal :
      {A : Type 0} {P : Pred} {C : Pred} {m : Exec W A} (b : Phase)
      → Ensures q P m (λ x l. Runs q l b) C
      → Ensures q P m (λ x. Legal q) C
  Ensures-Legal {C} {m} b h = record { at = λ s p. weaken_post q _ C b (m s).0 (h.at s p) }

  pub by_option :
      {X A : Type 0} {P : Pred} {R : A → Pred} {C : Pred} (o : Option X) (m : Exec W A)
      (f : X → Exec W A)
      → Ensures q P m R C
      → ((x : X) → o ≡ some x → Ensures q P (f x) R C)
      → Ensures q P (elim o [ none ↦ m | some x ↦ f x ]) R C
  by_option none m f h k = h
  by_option (some x) m f h k = k x refl

  pub Ensures-at :
      {A : Type 0} {a b : Phase} {m : Exec W A} {R : A → Pred} {C : Pred}
      → a ≡ b
      → Ensures q (λ l. Runs q l b) m R C
      → Ensures q (λ l. Runs q l a) m R C
  Ensures-at {m} {R} {C} e h = subst (λ c. Ensures q (λ l. Runs q l c) m R C) (sym e) h
