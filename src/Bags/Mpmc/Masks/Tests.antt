-- ===== src/Bags/Mpmc/Masks/Tests.antt =====
-- The runs that the source's tests list, by evaluation.
use lockness.Prelude.{◌≡◌, refl, true, false}
use lockness.Bags.Mpmc.Masks.{compute_request_mask, clear_extra_bits}

request_masks :
    (compute_request_mask 30 1 0 ≡ 0x80000000)
    × (compute_request_mask 30 1 29 ≡ 4)
    × (compute_request_mask 30 30 17 ≡ 0xfffffffc)
    × (compute_request_mask 30 7 7 ≡ 0x1fc0000)
    × (compute_request_mask 30 7 27 ≡ 0xf000001c)
unfolding compute_request_mask
request_masks = (refl, refl, refl, refl, refl)

extra_bits :
    (clear_extra_bits 0xf0 2 false ≡ 0xc0)
    × (clear_extra_bits 0xf0 2 true ≡ 0x30)
    × (clear_extra_bits 0xf0 9 true ≡ 0xf0)
unfolding clear_extra_bits
extra_bits = (refl, refl, refl)
