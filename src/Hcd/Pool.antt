-- ===== src/Hcd/Pool.antt =====
-- The pool of endpoints of the slave: looking one up, and finding a free one.
use usbsec.Base.{
  ℕ, zero, suc, ◌+◌, ◌%◌, ◌≤◌, ◌<◌, ◌≢◌, ◌≡◌, refl, ◌⊎◌, inl, inr, true, false, some, none, Option,
  arith, ◌==◌, ◌&&◌, Bool-cases, Bool, if◌then◌else◌,
}
use usbsec.Node.State.{Node, HwEndpoint}
use usbsec.Node.Monad.{ok}
use usbsec.Hcd.{find_endpoint, first_free, next_free_interrupt_ep, hw_endpoint_allocate, get_dev_ep}

-- What `find_endpoint` answers over the places from `i` on: the first that is configured for the
-- address, or that there is none.
abbrev pub IsFirst : (ℕ → HwEndpoint) → ℕ → ℕ → ℕ → Option ℕ → Type 0
IsFirst pool addr i last none =
    (k : ℕ) → i ≤ k → k < last → (pool k).configured ≡ true → (pool k).ep_addr ≢ addr
IsFirst pool addr i last (some e) =
    (i ≤ e)
    × (e < last)
    × ((pool e).configured ≡ true)
    × ((pool e).ep_addr ≡ addr)
    × ((k : ℕ) → i ≤ k → k < e → (pool k).configured ≡ true → (pool k).ep_addr ≢ addr)

le_split : (i k : ℕ) → i ≤ k → (i ≡ k) ⊎ (i + 1 ≤ k)
le_split i k h = elim (Bool-cases (i == k)) [
  | inl e ↦ inl (ground arith)
  | inr ne ↦ inr (ground arith)
]

misses :
    (pool : ℕ → HwEndpoint) (addr i k : ℕ)
    → i ≡ k
    → ((pool i).configured && ((pool i).ep_addr == addr)) ≡ false
    → (pool k).configured ≡ true
    → (pool k).ep_addr ≡ addr
    → ⊥
misses pool addr i k e miss conf hit = grind arith

-- a place that does not match is passed over
IsFirst-skip :
    (o : Option ℕ) (pool : ℕ → HwEndpoint) (addr i last : ℕ)
    → ((pool i).configured && ((pool i).ep_addr == addr)) ≡ false
    → IsFirst pool addr (i + 1) last o
    → IsFirst pool addr i last o
IsFirst-skip none pool addr i last miss h = λ k le lt conf. elim (le_split i k le) [
  | inl e ↦ λ hit. absurd (misses pool addr i k e miss conf hit)
  | inr later ↦ h k later lt conf
]
IsFirst-skip (some e) pool addr i last miss (le, lt, conf, hit, before) = (
  omega arith,
  lt,
  conf,
  hit,
  λ k a b c. elim (le_split i k a) [
    | inl same ↦ λ d. absurd (misses pool addr i k same miss c d)
    | inr later ↦ before k later b c
  ],
)

IsFirst-step :
    (b : Bool) (o : Option ℕ) (pool : ℕ → HwEndpoint) (addr i last : ℕ)
    → ((pool i).configured && ((pool i).ep_addr == addr)) ≡ b
    → i < last
    → IsFirst pool addr (i + 1) last o
    → IsFirst pool addr i last (if b then some i else o)
IsFirst-step true o pool addr i last hit lt h =
    (omega arith, lt, grind arith, grind arith, λ k a b. absurd (omega arith))
IsFirst-step false o pool addr i last miss lt h = IsFirst-skip o pool addr i last miss h

find_endpoint-IsFirst :
    (rounds i : ℕ) (pool : ℕ → HwEndpoint) (addr last : ℕ)
    → i + rounds ≡ last
    → IsFirst pool addr i last (find_endpoint rounds i pool addr)
unfolding find_endpoint
find_endpoint-IsFirst zero i pool addr last e = λ k a b. absurd (omega arith)
find_endpoint-IsFirst (suc rounds) i pool addr last e =
    IsFirst-step ((pool i).configured && ((pool i).ep_addr == addr))
      (find_endpoint rounds (i + 1) pool addr) pool addr i last refl (omega arith)
      (find_endpoint-IsFirst rounds (i + 1) pool addr last (omega arith))

-- For an address whose endpoint number is not 0, `get_dev_ep` changes nothing and finds the first
-- place after `epx` that is configured for the address, or nothing where there is none.
pub get_dev_ep_lem :
    (ep_addr : ℕ) (n : Node)
    → ep_addr % 128 ≢ 0
    → (found : Option ℕ) × (get_dev_ep ep_addr n ≡ (ok found, n))
      × IsFirst n.usb.endpoint ep_addr 33 48 found
unfolding get_dev_ep
get_dev_ep_lem ep_addr n nz = (
  find_endpoint 15 33 n.usb.endpoint ep_addr,
  ground arith,
  find_endpoint-IsFirst 15 33 n.usb.endpoint ep_addr 48 refl,
)

-- no place is free if all of them are configured
first_free-none :
    (rounds i : ℕ) (pool : ℕ → HwEndpoint)
    → ((k : ℕ) → i ≤ k → k < i + rounds → (pool k).configured ≡ true)
    → first_free rounds i pool ≡ none
unfolding first_free
first_free-none zero i pool used = refl
first_free-none (suc rounds) i pool used = elim (Bool-cases ((pool i).configured)) [
  | inl on ↦
      ground
        (arith, first_free-none rounds (i + 1) pool (λ k a b. used k (omega arith) (omega arith)))
  | inr off ↦ grind arith
]

-- With every place of the pool in use, an allocation of an endpoint other than 0 does not stop: it
-- returns the last place of the pool, which stays configured for the address it had.
pub hw_endpoint_allocate_full :
    (transfer_type ep_addr : ℕ) (n : Node)
    → ep_addr ≢ 0
    → ((k : ℕ) → 33 ≤ k → k < 48 → (n.usb.endpoint k).configured ≡ true)
    → let (r, n') = hw_endpoint_allocate transfer_type ep_addr n in
      (r ≡ ok 47)
      × ((n'.usb.endpoint 47).configured ≡ true)
      × ((n'.usb.endpoint 47).ep_addr ≡ (n.usb.endpoint 47).ep_addr)
unfolding next_free_interrupt_ep hw_endpoint_allocate
hw_endpoint_allocate_full transfer_type ep_addr n nz used = (
  ground (arith, first_free-none 15 33 n.usb.endpoint used),
  ground (arith, first_free-none 15 33 n.usb.endpoint used, used 47 (omega arith) (omega arith)),
  ground (arith, first_free-none 15 33 n.usb.endpoint used),
)
