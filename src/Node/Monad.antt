-- ===== src/Node/Monad.antt =====
-- Actions of the firmware: they return, or stop. A stop keeps the state that it was reached in.
use usbsec.Base.{Bool, true, ◌∷◌, false}
use usbsec.Node.State.{Node, Event}

-- `panic`: `error()` was called. `assertion`: a `runtime_assert` failed, with assertions compiled
-- in. `fault`: an access outside every allocated block. `blocked`: a wait for the other side (a
-- byte on the wire, room in a queue, a pin). `spins`: a loop that makes no progress.
pub data Stop : Type 0 where
  panic assertion fault blocked spins : Stop

pub data Result (A : Type 0) : Type 0 where
  ok : A → Result A
  stop : Stop → Result A

abbrev pub Void : Type 0
Void = Unit

abbrev pub M : Type 0 → Type 0
M A = Node → Result A × Node

abbrev pub pure : {A : Type 0} → A → M A
pure a n = (ok a, n)

abbrev pub halt : {A : Type 0} → Stop → M A
halt s n = (stop s, n)

infixl 5 ◌>>=◌ ◌>>◌
abbrev pub ◌>>=◌ : {A B : Type 0} → M A → (A → M B) → M B
◌>>=◌ first next n =
    let (outcome, n') = first n in
    elim outcome [ ok a ↦ next a n' | stop reason ↦ (stop reason, n') ]

abbrev pub ◌>>◌ : {A B : Type 0} → M A → M B → M B
m >> k = m >>= λ _. k

abbrev pub gets : {A : Type 0} → (Node → A) → M A
gets f n = (ok (f n), n)

abbrev pub modify : (Node → Node) → M Void
modify f n = (ok tt, f n)

-- `if (b) { m }`
abbrev pub when : Bool → M Void → M Void
when b m n = elim b [ true ↦ m n | false ↦ (ok tt, n) ]

-- a call of the SDK that returns nothing
abbrev pub emit : Event → M Void
emit e = modify (λ n. record n { events = e ∷ n.events })

-- `error()`: the LED, then `panic`
unfoldable pub error : {A : Type 0} → M A
error = emit (Event.gpio_put 25 true) >> halt Stop.panic

-- `runtime_assert`
unfoldable pub runtime_assert : Bool → M Void
runtime_assert b n = elim b [
  | true ↦ (ok tt, n)
  | false ↦ (emit (Event.gpio_put 25 true) >> halt Stop.assertion) n
]
