-- ===== src/Legacy/Registry/Walk.antt =====
-- Going through the registry from its first entry.
use usbsec.Base.{
  ℕ, zero, suc, ◌+◌, ◌*◌, ◌≤◌, ◌<◌, ◌≡◌, refl, Option, none, some, List, [], ◌∷◌, arith, ◌==◌,
  if◌then◌else◌,
}
use usbsec.Legacy.Registry.{
  Registry, registry_max_size, insert_into_registry, get_first_in_registry, get_next_in_registry,
}

-- the places that `for (p = first; p; p = next(p))` visits; `none` where an assertion fails or the
-- fuel runs out
pub walk {ℓ} : {D : Type ℓ} → ℕ → Registry D → ℕ → Option (List ℕ)
walk zero r p = none
walk (suc fuel) r p = elim (get_next_in_registry r p) [
  | none ↦ none
  | some none ↦ some (p ∷ [])
  | some (some p') ↦ elim (walk fuel r p') [ none ↦ none | some ps ↦ some (p ∷ ps) ]
]

-- every seventh number, `count + 1` of them from `p` on
pub sevenths : ℕ → ℕ → List ℕ
sevenths zero p = p ∷ []
sevenths (suc k) p = p ∷ sevenths k (p + 7)

walk_from {ℓ} :
    {D : Type ℓ} (k fuel p : ℕ) (r : Registry D)
    → k < fuel
    → p + k * 7 ≡ r.count * 7
    → walk fuel r p ≡ some (sevenths k p)
unfolding walk sevenths get_next_in_registry
walk_from k zero p r h e = absurd (omega arith)
walk_from zero (suc fuel) p r h e = ground arith
walk_from (suc k) (suc fuel) p r h e = ground (arith, walk_from k fuel (p + 7) r)

-- A walk from the first entry visits the places 0, 7, 14 and so on up to seven times the count:
-- of the entries that were inserted it skips all but every seventh.
pub walk_lem {ℓ} :
    {D : Type ℓ} (r : Registry D)
    → walk (r.count + 1) r (get_first_in_registry r) ≡ some (sevenths r.count 0)
walk_lem r = walk_from r.count (r.count + 1) 0 r (omega arith) (omega arith)

-- an insertion keeps the entries and adds one, while there are fewer than 16
pub insert_into_registry_lem {ℓ} :
    {D : Type ℓ} (r : Registry D) (d : D)
    → (r.count < registry_max_size
        → (r' : Registry D) × (insert_into_registry r d ≡ some r')
          × (r'.count ≡ r.count + 1)
          × (r'.entry r.count ≡ d)
          × ((i : ℕ) → i < r.count → r'.entry i ≡ r.entry i))
      × (registry_max_size ≤ r.count → insert_into_registry r d ≡ none)
unfolding insert_into_registry
insert_into_registry_lem r d = (
  λ h. (
    record { entry = λ i. if i == r.count then d else r.entry i; count = r.count + 1 },
    ground arith,
    refl,
    ground arith,
    λ i lt. ground arith,
  ),
  λ h. ground arith,
)
