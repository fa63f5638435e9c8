-- ===== src/Hal.antt =====
-- src/hal: what the drivers use of the hardware, on the nRF and on the STM32L4.
pub mod Nrf
pub mod Timer
use drogue_device.Base.{Option, none, some}

-- What is left is done once a loop that waits has ended.
infixl 5 ◌>>=◌
abbrev pub ◌>>=◌ {ℓ κ} : {A : Type ℓ} {B : Type κ} → Option A → (A → Option B) → Option B
none >>= f = none
some a >>= f = f a
