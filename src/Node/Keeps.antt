-- ===== src/Node/Keeps.antt =====
-- What an action keeps: a predicate on a part of the state that holds before it holds after it,
-- however the action ends.
pub mod Leads
use usbsec.Base.{Option, none, some, Bool, true, false, if◌then◌else◌, ◌≡◌, ap, sym, subst}
use usbsec.Node.State.{Node, Role, master, slave}
use usbsec.Node.Monad.{M, Void, Result, ok, stop, Stop, pure, halt, gets, modify, when, ◌>>=◌, ◌>>◌}

pub record Keeps {A S : Type 0} (view : Node → S) (P : S → Type 0) (m : M A) : Type 0 where
  pub after : (n : Node) → P (view n) → P (view (m n).1)

-- the rest of a sequence of actions, after the first one
abbrev carry_on : {A B : Type 0} → (A → M B) → Result A × Node → Result B × Node
carry_on k r = elim (r.0) [ ok a ↦ k a r.1 | stop s ↦ (stop s, r.1) ]

-- An action that returns is followed by the next one.
pub bind_ok :
    {A B : Type 0} (m : M A) (k : A → M B) (n n' : Node) (a : A)
    → m n ≡ (ok a, n')
    → (m >>= k) n ≡ k a n'
bind_ok m k n n' a h = ap (carry_on k) h

-- what each of the two microcontrollers does
abbrev pub by_role : {A : Type 0} → Role → M A → M A → M A
by_role role m k n = elim role [ master ↦ m n | slave ↦ k n ]

-- what is done with a result that may be missing
abbrev pub on_option : {A B : Type 0} → Option B → M A → (B → M A) → M A
on_option o m k n = elim o [ none ↦ m n | some b ↦ k b n ]

-- what is done by a test on the state
abbrev pub by_test : {A : Type 0} → Bool → M A → M A → M A
by_test b m k n = elim b [ true ↦ m n | false ↦ k n ]

module _ {S : Type 0} {view : Node → S} {P : S → Type 0} where
  pub Keeps-gets : {A : Type 0} (f : Node → A) → Keeps view P (gets f)
  Keeps-gets f = record { after = λ n h. h }

  pub Keeps-modify :
      (f : Node → Node) → ((n : Node) → P (view n) → P (view (f n))) → Keeps view P (modify f)
  Keeps-modify f keep = record { after = keep }

  pub Keeps-pure : {A : Type 0} (a : A) → Keeps view P (pure a)
  Keeps-pure a = record { after = λ n h. h }

  pub Keeps-halt : {A : Type 0} (s : Stop) → Keeps view P (halt {A = A} s)
  Keeps-halt s = record { after = λ n h. h }

  bind-after :
      {A B : Type 0} (k : A → M B) (r : Result A × Node)
      → ((a : A) → Keeps view P (k a))
      → P (view r.1)
      → P (view (carry_on k r).1)
  bind-after k (ok a, n) next h = (next a).after n h
  bind-after k (stop s, n) next h = h

  pub Keeps-bind :
      {A B : Type 0} (m : M A) (k : A → M B)
      → Keeps view P m
      → ((a : A) → Keeps view P (k a))
      → Keeps view P (m >>= k)
  Keeps-bind m k first next = record { after = λ n h. bind-after k (m n) next (first.after n h) }

  pub Keeps-when : (b : Bool) (m : M Void) → Keeps view P m → Keeps view P (when b m)
  Keeps-when true m keep = record { after = keep.after }
  Keeps-when false m keep = record { after = λ n h. h }

  pub Keeps-if :
      {A : Type 0} (b : Bool) (m k : M A)
      → Keeps view P m
      → Keeps view P k
      → Keeps view P (if b then m else k)
  Keeps-if true m k first second = first
  Keeps-if false m k first second = second

  pub Keeps-same : {A : Type 0} (m : M A) → ((n : Node) → view (m n).1 ≡ view n) → Keeps view P m
  Keeps-same m same = record { after = λ n h. subst P (sym (same n)) h }

  role-after :
      {A : Type 0} (m k : M A) (role : Role) (n : Node)
      → Keeps view P m
      → Keeps view P k
      → P (view n)
      → P (view (by_role role m k n).1)
  role-after m k master n first second h = first.after n h
  role-after m k slave n first second h = second.after n h

  pub Keeps-role :
      {A : Type 0} (m k : M A)
      → Keeps view P m
      → Keeps view P k
      → Keeps view P (λ n. by_role n.role m k n)
  Keeps-role m k first second = record { after = λ n h. role-after m k n.role n first second h }

  test-after :
      {A : Type 0} (m k : M A) (b : Bool) (n : Node)
      → Keeps view P m
      → Keeps view P k
      → P (view n)
      → P (view (by_test b m k n).1)
  test-after m k true n first second h = first.after n h
  test-after m k false n first second h = second.after n h

  pub Keeps-test :
      {A : Type 0} (test : Node → Bool) (m k : M A)
      → Keeps view P m
      → Keeps view P k
      → Keeps view P (λ n. by_test (test n) m k n)
  Keeps-test test m k first second = record {
    after = λ n h. test-after m k (test n) n first second h;
  }

  pub Keeps-option :
      {A B : Type 0} (o : Option B) (m : M A) (k : B → M A)
      → Keeps view P m
      → ((b : B) → Keeps view P (k b))
      → Keeps view P (λ n. on_option o m k n)
  Keeps-option none m k first second = first
  Keeps-option (some b) m k first second = second b

-- Actions that are built of others.
pub ruleset composed = (Keeps-bind, Keeps-if, Keeps-when, Keeps-pure, Keeps-gets, Keeps-halt)
