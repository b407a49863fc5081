-- ===== src/Node/Printf.antt =====
-- `printf` of the C standard library with a string from memory as its format, and no argument behind
-- it. A string that does not end in its block, or that asks for an argument, is undefined, and a
-- stop here.
use usbsec.Base.{Bool, true, false, ℕ, Option, none, some, List, [], ◌∷◌, ◌==◌, drop}
use usbsec.Node.Sdk.{Pointer}
use usbsec.Node.State.{Event}
use usbsec.Node.Monad.{M, Void, stop, Stop, emit}

abbrev in_front : ℕ → Option (List ℕ) → Option (List ℕ)
in_front c none = none
in_front c (some cs) = some (c ∷ cs)

-- What is written: all up to the zero byte, and `%` for `%%`. The flag says that a `%` came before.
abbrev pub formatted : Bool → List ℕ → Option (List ℕ)
formatted percent [] = none
formatted percent (c ∷ cs) = elim percent [
  | true ↦ elim (c == 37) [ true ↦ in_front 37 (formatted false cs) | false ↦ none ]
  | false ↦ elim (c == 0) [
    | true ↦ some []
    | false ↦ elim (c == 37) [ true ↦ formatted true cs | false ↦ in_front c (formatted false cs) ]
  ]
]

unfoldable pub printf : Pointer → M Void
printf p node = elim (node.mem p.block) [
  | none ↦ (stop Stop.fault, node)
  | some bytes ↦ elim (formatted false (drop p.off bytes)) [
    | none ↦ (stop Stop.fault, node)
    | some text ↦ emit (Event.print text) node
  ]
]
