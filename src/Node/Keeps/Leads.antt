-- ===== src/Node/Keeps/Leads.antt =====
-- What an action leads to where it returns. A state that it stops in is none that the firmware
-- goes on from.
use usbsec.Base.{Bool, true, false, Option, none, some, if◌then◌else◌, ◌≡◌, subst}
use usbsec.Node.State.{Node}
use usbsec.Node.Monad.{M, Result, ok, stop, ◌>>=◌}
use usbsec.Node.Keeps.{Keeps, carry_on, on_option}

abbrev pub Ends : {A S : Type 0} → (Node → S) → (S → Type 0) → Result A × Node → Type 0
Ends view P r = elim (r.0) [ ok a ↦ P (view r.1) | stop s ↦ Unit {0} ]

pub record Leads {A S : Type 0} (view : Node → S) (P R : S → Type 0) (m : M A) : Type 0 where
  pub after : (n : Node) → P (view n) → Ends view R (m n)

ends-of :
    {A S : Type 0} (view : Node → S) (R : S → Type 0) (r : Result A × Node)
    → R (view r.1)
    → Ends view R r
ends-of view R (ok a, n) h = h
ends-of view R (stop s, n) h = tt

module _ {S : Type 0} {view : Node → S} {R : S → Type 0} where
  pub Leads-kept : {A : Type 0} (m : M A) → Keeps view R m → Leads view R R m
  Leads-kept m keep = record { after = λ n h. ends-of view R (m n) (keep.after n h) }

  module _ {P : S → Type 0} where
    pub Leads-if :
        {A : Type 0} (b : Bool) (m k : M A)
        → Leads view P R m
        → Leads view P R k
        → Leads view P R (if b then m else k)
    Leads-if true m k first second = first
    Leads-if false m k first second = second

    pub Leads-option :
        {A B : Type 0} (o : Option B) (m : M A) (k : B → M A)
        → Leads view P R m
        → ((b : B) → Leads view P R (k b))
        → Leads view P R (λ n. on_option o m k n)
    Leads-option none m k first second = first
    Leads-option (some b) m k first second = second b

    pub returned :
        {A : Type 0} (m : M A) (n : Node) (a : A) (n' : Node)
        → Leads view P R m
        → m n ≡ (ok a, n')
        → P (view n)
        → R (view n')
    returned m n a n' lead runs h = subst (Ends view R) runs (lead.after n h)

    bind-ends :
        {A B : Type 0} (k : A → M B) (r : Result A × Node)
        → ((a : A) → Leads view P R (k a))
        → Ends view P r
        → Ends view R (carry_on k r)
    bind-ends k (ok a, n) next h = (next a).after n h
    bind-ends k (stop s, n) next h = tt

    module _ {Q : S → Type 0} where
      pub Leads-bind :
          {A B : Type 0} (m : M A) (k : A → M B)
          → Leads view Q P m
          → ((a : A) → Leads view P R (k a))
          → Leads view Q R (m >>= k)
      Leads-bind m k first next = record { after = λ n h. bind-ends k (m n) next (first.after n h) }
