-- ===== src/Outcome/Holds.antt =====
-- What holds of the state that a call returns, if it returns: the rules for the composition of calls.
use peer_to_peer_network_ove.Prelude.{◌≡◌, if◌then◌else◌, Bool, true, false, subst}
use peer_to_peer_network_ove.Outcome.{Outcome, Action, ok, fault, ◌>>=◌}

-- The state that `r` returns has the property.
abbrev pub Holds : {S A : Type 0} → (S → Type 0) → Outcome (A × S) → Type 0
Holds P (ok (a, s)) = P s
Holds P (fault e) = Unit {0}

-- A call keeps an invariant: if it returns, the invariant holds again.
abbrev pub Keeps : {S A : Type 0} → (S → Type 0) → Action S A → Type 0
Keeps {S} P m = (s : S) → P s → Holds P (m s)

pub Holds-ok :
    {S A : Type 0} (P : S → Type 0) {r : Outcome (A × S)} (a : A) (s : S)
    → Holds P r
    → r ≡ ok (a, s)
    → P s
Holds-ok P a s h e = subst (Holds P) e h

-- What follows a call, for a state that may be another one.
pub Holds-then :
    {S T A B : Type 0} (P : S → Type 0) (Q : T → Type 0) (r : Outcome (A × S))
    (k : A → S → Outcome (B × T))
    → Holds P r
    → ((a : A) (s : S) → P s → Holds Q (k a s))
    → Holds Q (elim r [ fault e ↦ fault e | ok (a, s) ↦ k a s ])
Holds-then P Q (ok (a, s)) k h next = next a s h
Holds-then P Q (fault e) k h next = tt

pub Holds-if :
    {S A : Type 0} (P : S → Type 0) (b : Bool) (x y : Outcome (A × S))
    → Holds P x
    → Holds P y
    → Holds P (if b then x else y)
Holds-if P true x y h k = h
Holds-if P false x y h k = k

pub >>=-Keeps :
    {S A B : Type 0} (P : S → Type 0) (m : Action S A) (f : A → Action S B)
    → Keeps P m
    → ((a : A) → Keeps P (f a))
    → Keeps P (m >>= f)
>>=-Keeps P m f first next s h = Holds-then P P (m s) f (first s h) next

pub if-Keeps :
    {S A : Type 0} (P : S → Type 0) (b : Bool) (m k : Action S A)
    → Keeps P m
    → Keeps P k
    → Keeps P (if b then m else k)
if-Keeps P true m k h q = h
if-Keeps P false m k h q = q
