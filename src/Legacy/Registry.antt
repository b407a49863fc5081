-- ===== src/Legacy/Registry.antt =====
-- pico_firmware/src/legacy/edpt_registry/edpt_registry.c: a list of endpoint descriptors. A
-- pointer into `registry` is named by its place in the array, so `p + k` is `k` places on, the
-- descriptors being 7 bytes long (`sizeof(tusb_desc_endpoint_t)`). A pointer is never below the
-- array here.
pub mod Walk
use usbsec.Base.{ℕ, ◌+◌, ◌*◌, Bool, true, false, Option, none, some, ◌==◌, ltb, leb, if◌then◌else◌}

abbrev pub registry_max_size : ℕ
registry_max_size = 16

abbrev pub descriptor_size : ℕ
descriptor_size = 7

-- `registry` and `count`
pub record Registry {ℓ} (D : Type ℓ) : Type ℓ where
  pub entry : ℕ → D
  pub count : ℕ

module _ {ℓ} {D : Type ℓ} where
  -- `none` where the assertion fails
  unfoldable pub insert_into_registry : Registry D → D → Option (Registry D)
  insert_into_registry r edpt = elim (ltb r.count registry_max_size) [
    | true ↦
        some (record { entry = λ i. if i == r.count then edpt else r.entry i; count = r.count + 1 })
    | false ↦ none
  ]

  abbrev pub get_first_in_registry : Registry D → ℕ
  get_first_in_registry r = 0

  -- `none` where an assertion fails, `some none` for `NULL`
  unfoldable pub get_next_in_registry : Registry D → ℕ → Option (Option ℕ)
  get_next_in_registry r edpt = elim (leb edpt (r.count * descriptor_size)) [
    | true ↦
        some (if edpt == r.count * descriptor_size then none else some (edpt + descriptor_size))
    | false ↦ none
  ]
