-- ===== src/Wallet/Clamp.antt =====
-- clampCharge: the overdraft floor.
use hypitoken.Prelude.{◌≡◌, ℤ, pos, ◌+ℤ◌, ◌-ℤ◌, neg_ℤ, ◌≤ℤ◌, ◌<ℤ◌, ◌⊎◌, arith, +ℤ_parts, int_laws}
use hypitoken.Wallet.{clamp_charge}

to_floor : (bal floor : ℤ) → bal -ℤ (bal +ℤ floor) ≡ neg_ℤ floor
to_floor bal floor = omega int_laws

module _ (bal amount floor : ℤ) where
  -- Of a positive amount no more than the amount is taken, and nothing negative.
  pub clamp_charge-bounds :
      pos 0 <ℤ amount
      → (pos 0 ≤ℤ clamp_charge bal amount floor) × (clamp_charge bal amount floor ≤ℤ amount)
  unfolding clamp_charge
  clamp_charge-bounds h = ground (arith, +ℤ_parts bal floor)

  -- With a floor: a charge that would breach it brings the wallet to rest exactly on the floor, or
  -- takes nothing from a wallet that is at or past it; any other charge is taken whole.
  pub clamp_charge-floor :
      pos 0 <ℤ amount
      → pos 0 <ℤ floor
      → ((amount ≤ℤ bal +ℤ floor) × (clamp_charge bal amount floor ≡ amount))
        ⊎ ((bal +ℤ floor <ℤ amount)
            × (pos 0 ≤ℤ bal +ℤ floor)
            × (bal -ℤ clamp_charge bal amount floor ≡ neg_ℤ floor))
        ⊎ ((bal +ℤ floor <ℤ pos 0) × (clamp_charge bal amount floor ≡ pos 0))
  unfolding clamp_charge
  clamp_charge-floor h f = ground (arith, to_floor bal floor)

  -- Without a floor the amount is taken whole.
  pub clamp_charge-no_floor : floor ≤ℤ pos 0 → clamp_charge bal amount floor ≡ amount
  unfolding clamp_charge
  clamp_charge-no_floor h = ground arith
