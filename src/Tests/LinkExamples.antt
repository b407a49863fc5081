-- ===== src/Tests/LinkExamples.antt =====
-- Both sides queue messages, a round is made, and the messages are taken.
use usbsec.Base.{◌≡◌, refl, List, [], ◌∷◌, replicate, arith}
use usbsec.Node.State.{Node, slave}
use usbsec.Messages.Contents.{Content}
use usbsec.Messages.Link.{Mail, Act, ask, answer, slave_takes, round, all_meant, Steps}
use usbsec.Messages.Link.Refine.{Hold, link_refines}
use usbsec.Tests.Fixtures.{list_sdk, list-IsFifo, start}

abbrev opened : Content
opened = record { flag = 0x8001; bytes = 0x81 ∷ 3 ∷ [] }

abbrev report : Content
report = record { flag = 0x301; bytes = 5 ∷ 0x81 ∷ [] }

abbrev history : List Act
history =
    ask opened
    ∷ answer report
    ∷ round
    ∷ ask report
    ∷ slave_takes
    ∷ round
    ∷ slave_takes
    ∷ slave_takes
    ∷ []

abbrev nothing : Mail
nothing = record { asks = []; answers = []; at_slave = []; at_master = [] }

abbrev slave_start : Node
slave_start = record start { role = slave }

all_meant_test : all_meant history nothing ≡ record nothing { at_master = report ∷ [] }
unfolding all_meant
all_meant_test = refl

link_refines_example :
    (m : Node) × (s : Node) × Steps history start slave_start m s
    × Hold (all_meant history nothing) m s
unfolding all_meant
link_refines_example =
    link_refines list-IsFifo (λ mem k. refl) history nothing start slave_start
      (
        (
          ((refl, omega arith, (replicate 1025 0, refl, refl)), tt, tt, tt, tt, tt),
          refl,
          refl,
          refl,
        ),
        (((refl, omega arith, (replicate 1025 0, refl, refl)), tt, tt, tt, tt, tt), omega arith),
        tt,
        tt,
        tt,
      )
      (
        ((omega arith, omega arith), refl, omega arith),
        (
          ((omega arith, omega arith), omega arith),
          (
            (omega arith, omega arith),
            (
              ((omega arith, omega arith), refl, omega arith),
              (tt, ((omega arith, omega arith), (tt, (tt, tt)))),
            ),
          ),
        ),
      )
