-- ===== src/Messages/Linked.antt =====
-- A microcontroller whose end of the link is in order: its `bugger` is in place, and its two queues
-- stand for messages in blocks of their own. What the calls of the handlers do to it.
use usbsec.Base.{
  ℕ, ◌+◌, ◌≤◌, ◌<◌, ◌≡◌, ◌≢◌, refl, some, none, List, [], ◌∷◌, ◌++◌, length, ◌∙◌, arith, subst, sym,
}
use usbsec.Node.Sdk.{Sdk, Queue, Message}
use usbsec.Node.State.{Node, Role}
use usbsec.Node.Memory.{set_block, first_heap_block}
use usbsec.Node.Memory.Copy.{set_block_self, set_block_ne}
use usbsec.Messages.{tx, set_queue}
use usbsec.Messages.Contents.{
  Content, StandFor, StandFor-next, StandFor-heap, StandFor-AreBelow, AreApart, AreApart-append,
  AreDisjoint, AreDisjoint-new,
}
use usbsec.Messages.Enqueue.{copied, with_copy}
use usbsec.Messages.Send.{StandFor-freed}
use usbsec.Messages.Deliver.{IsReady}

-- what is to be sent, and what was received
abbrev pub IsLinked : ⦃sdk : Sdk⦄ → Role → Node → List Content → List Content → Type 0
IsLinked ⦃sdk⦄ role n cs ds =
    IsReady role n
    × StandFor n.mem n.next_block (sdk.items n.tx) cs
    × StandFor n.mem n.next_block (sdk.items n.rx) ds
    × AreApart (sdk.items n.tx)
    × AreApart (sdk.items n.rx)
    × AreDisjoint (sdk.items n.rx) (sdk.items n.tx)

AreDisjoint-nothing : (ms : List Message) → AreDisjoint ms []
AreDisjoint-nothing [] = tt
AreDisjoint-nothing (m ∷ ms) = (tt, AreDisjoint-nothing ms)

module _ ⦃sdk : Sdk⦄ where
  pub nothing_to_send :
      (role : Role) (n : Node) (ds : List Content)
      → IsReady role n
      → sdk.items n.tx ≡ []
      → StandFor n.mem n.next_block (sdk.items n.rx) ds
      → AreApart (sdk.items n.rx)
      → IsLinked role n [] ds
  nothing_to_send role n ds ready empty stand apart = (
    ready,
    subst (λ ms. StandFor n.mem n.next_block ms []) (sym empty) tt,
    stand,
    subst AreApart (sym empty) tt,
    apart,
    subst (AreDisjoint (sdk.items n.rx)) (sym empty) (AreDisjoint-nothing (sdk.items n.rx)),
  )

  -- a change of a static block other than `bugger`
  pub static-IsLinked :
      (role : Role) (n : Node) (cs ds : List Content) (b : ℕ) (bytes : List ℕ)
      → b ≢ 1
      → b < first_heap_block
      → IsLinked role n cs ds
      → IsLinked role (record n { mem = set_block n.mem b (some bytes) }) cs ds
  static-IsLinked role n cs ds b bytes other low
        ((own, heap, (old, at, size)), stand_tx, stand_rx, apart_tx, apart_rx, disjoint) =
      let mem = set_block n.mem b (some bytes) in
      let same = λ (k : ℕ) (lo : first_heap_block ≤ k) (hi : k < n.next_block).
        set_block_ne n.mem b k (some bytes) (omega arith) in
      (
        (own, heap, (old, set_block_ne n.mem b 1 (some bytes) (omega arith) ∙ at, size)),
        StandFor-heap n.mem mem n.next_block n.next_block (sdk.items n.tx) cs same (omega arith)
            stand_tx,
        StandFor-heap n.mem mem n.next_block n.next_block (sdk.items n.rx) ds same (omega arith)
            stand_rx,
        apart_tx,
        apart_rx,
        disjoint,
      )

  -- A message is queued: it is sent last.
  pub enqueue-IsLinked :
      (role : Role) (n : Node) (cs ds : List Content) (m : Message) (bytes : List ℕ) (q : Queue)
      → m.payload_length ≡ length bytes
      → sdk.items q ≡ sdk.items n.tx ++ (copied n m ∷ [])
      → IsLinked role n cs ds
      → IsLinked role
          (set_queue tx q (with_copy n bytes))
          (cs ++ (record { flag = m.e_flag; bytes = bytes } ∷ []))
          ds
  enqueue-IsLinked role n cs ds m bytes q len its
        ((own, heap, (old, at, size)), stand_tx, stand_rx, apart_tx, apart_rx, disjoint) =
      let b = n.next_block in
      let mem = set_block n.mem b (some bytes) in
      let same = λ (k : ℕ) (lo : first_heap_block ≤ k) (hi : k < b).
        set_block_ne n.mem b k (some bytes) (omega arith) in
      (
        (own, omega arith, (old, set_block_ne n.mem b 1 (some bytes) (omega arith) ∙ at, size)),
        StandFor-next n.mem mem b (b + 1) (sdk.items n.tx) (sdk.items q) (copied n m) cs
            (record { flag = m.e_flag; bytes = bytes }) its
            (refl, len, refl, set_block_self n.mem b (some bytes), heap, omega arith) refl same
            stand_tx,
        StandFor-heap n.mem mem b (b + 1) (sdk.items n.rx) ds same (omega arith) stand_rx,
        subst AreApart (sym its) (
            AreApart-append (sdk.items n.tx) (copied n m)
              (StandFor-AreBelow n.mem b (sdk.items n.tx) cs stand_tx) apart_tx),
        apart_rx,
        subst (AreDisjoint (sdk.items n.rx)) (sym its) (
            AreDisjoint-new (sdk.items n.rx) (sdk.items n.tx) (copied n m)
              (StandFor-AreBelow n.mem b (sdk.items n.rx) ds stand_rx) disjoint),
      )

  -- The first received message is taken and its payload freed.
  pub take-IsLinked :
      (role : Role) (n : Node) (cs ds : List Content) (d : Content) (m : Message)
      (ms : List Message) (q : Queue)
      → sdk.items n.rx ≡ m ∷ ms
      → sdk.items q ≡ ms
      → IsLinked role n cs (d ∷ ds)
      → IsLinked role (record n { rx = q; mem = set_block n.mem m.payload.block none }) cs ds
  take-IsLinked role n cs ds d m ms q front rest
        ((own, heap, (old, at, size)), stand_tx, stand_rx, apart_tx, apart_rx, disjoint) =
      let b = m.payload.block in
      let mem = set_block n.mem b none in
      let (one, others) = subst (λ all. StandFor n.mem n.next_block all (d ∷ ds)) front stand_rx in
      let (first, apart) = subst AreApart front apart_rx in
      let (elsewhere, away) = subst (λ all. AreDisjoint all (sdk.items n.tx)) front disjoint in
      let low : first_heap_block ≤ b = one.4 in
      (
        (own, heap, (old, set_block_ne n.mem b 1 none (omega arith) ∙ at, size)),
        StandFor-freed n.mem n.next_block b (sdk.items n.tx) cs elsewhere stand_tx,
        subst (λ all. StandFor mem n.next_block all ds) (sym rest)
            (StandFor-freed n.mem n.next_block b ms ds first others),
        apart_tx,
        subst AreApart (sym rest) apart,
        subst (λ all. AreDisjoint all (sdk.items n.tx)) (sym rest) away,
      )
