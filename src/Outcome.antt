-- ===== src/Outcome.antt =====
-- What a call can come to beside its result: an exception of the standard library, undefined
-- behaviour, or a thread that waits for itself. Every src/*.cpp that locks or resizes uses it.
pub mod Holds
use peer_to_peer_network_ove.Prelude.{◌≡◌, refl, ap, ◌⊎◌, inl, inr}

pub data Fault : Type 0 where
  -- a std::mutex that the calling thread holds is locked again
  deadlock : Fault
  -- vector::resize beyond max_size() throws std::length_error
  length_error : Fault
  -- an iterator is advanced after its element was erased
  dangling_iterator : Fault
  -- an integer is divided by zero
  division_by_zero : Fault
  -- an object is used after it was destroyed
  dangling_pointer : Fault
  -- the bound on the rounds of a loop was too small
  out_of_fuel : Fault

pub data Outcome {ℓ} (A : Type ℓ) : Type ℓ where
  ok : A → Outcome A
  fault : Fault → Outcome A

-- A call on an object of state `S`.
abbrev pub Action : Type 0 → Type 0 → Type 0
Action S A = S → Outcome (A × S)

abbrev pub ret : {S A : Type 0} → A → Action S A
ret a s = ok (a, s)

abbrev pub raise : {S A : Type 0} → Fault → Action S A
raise e s = fault e

infixl 5 ◌>>=◌ ◌>>◌
abbrev pub ◌>>=◌ : {S A B : Type 0} → Action S A → (A → Action S B) → Action S B
◌>>=◌ m f s = elim (m s) [ fault e ↦ fault e | ok (a, s') ↦ f a s' ]

abbrev pub ◌>>◌ : {S B : Type 0} → Action S (Unit {0}) → Action S B → Action S B
m >> k = m >>= λ _. k

pub Outcome-cases {ℓ} :
    {A : Type ℓ} (r : Outcome A) → ((a : A) × (r ≡ ok a)) ⊎ ((e : Fault) × (r ≡ fault e))
Outcome-cases (ok a) = inl (a, refl)
Outcome-cases (fault e) = inr (e, refl)

module _ {S A B : Type 0} (m : Action S A) (f : A → Action S B) (s : S) where
  abbrev run_rest : Outcome (A × S) → Outcome (B × S)
  run_rest r = elim r [ fault e ↦ fault e | ok (a, t) ↦ f a t ]

  pub bind_ok : (a : A) (t : S) → m s ≡ ok (a, t) → (m >>= f) s ≡ f a t
  bind_ok a t h = ap run_rest h

  pub bind_fault : (e : Fault) → m s ≡ fault e → (m >>= f) s ≡ fault e
  bind_fault e h = ap run_rest h
