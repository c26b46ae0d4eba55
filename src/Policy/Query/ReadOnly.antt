-- ===== src/Policy/Query/ReadOnly.antt =====
-- kernel/trigger6_query.h: the allow-list, request by request.
use jcd543_mct_t6_linux_driv.Prelude.{ℕ, ◌%◌, ◌≤◌, ◌≡◌, ◌⊎◌, ◌↔◌, Bool, true, false, arith}
use jcd543_mct_t6_linux_driv.Policy.Query.{query_in_allowed}

-- The head that a valid mask selects.
abbrev pub Selects : ℕ → ℕ → Type 0
Selects mask head = ((mask ≡ 1) × (head ≡ 0)) ⊎ ((mask ≡ 2) × (head ≡ 1))

-- The requests that a run may make, with the run's options that each one needs.
abbrev pub IsMeasured : ℕ → Bool → Bool → ℕ → ℕ → ℕ → ℕ → Type 0
IsMeasured mask timings page1 req value index size =
    ((req ≡ 0x88) × (value ≡ 0) × (index ≡ 0) × (size ≡ 4))
    ⊎ (((req ≡ 0x87) × Selects mask value × (index ≡ 0) × (size ≡ 1))
        ⊎ (((req ≡ 0x80) × (value ≡ 0) × Selects mask index × (size ≡ 128))
            ⊎ (((req ≡ 0x84) × (timings ≡ true) × (value ≡ 0) × (index ≡ 0) × (size ≡ 4))
                ⊎ (((req ≡ 0x89)
                      × (timings ≡ true)
                      × (page1 ≡ true)
                      × (value ≡ 0)
                      × (index ≡ 512)
                      × (size ≡ 512))
                    ⊎ ((req ≡ 0x89)
                        × (timings ≡ true)
                        × (page1 ≡ false)
                        × (value ≡ 0)
                        × (index ≡ 0)
                        × (1 ≤ size)
                        × (size ≤ 512)
                        × (size % 32 ≡ 0))))))

-- Options that fit together: one output is selected, timings are of output 1 alone, and the second page is of timings.
abbrev pub IsRun : ℕ → Bool → Bool → Type 0
IsRun mask timings page1 =
    ((mask ≡ 1) ⊎ (mask ≡ 2))
    × ((timings ≡ false) ⊎ (mask ≡ 1))
    × ((page1 ≡ false) ⊎ (timings ≡ true))

-- The allow-list of a read-only run admits a request exactly when the run's options fit together and
-- the request is one of the six that were measured, with the value, the index and the size it was measured with.
pub query_in_allowed_iff :
    (mask : ℕ) (timings page1 : Bool) (req value index size : ℕ)
    → (query_in_allowed mask timings page1 req value index size ≡ true)
      ↔ (IsRun mask timings page1 × IsMeasured mask timings page1 req value index size)
unfolding query_in_allowed
query_in_allowed_iff mask timings page1 req value index size = ground arith
