-- ===== src/Driver/Blinker/Tests.antt =====
-- A blinker on the timer of the STM32L4.
use drogue_device.Base.{
  ℕ, zero, suc, ◌*◌, ◌/◌, ◌≡◌, refl, false, Option, none, some, done, panic, ◌>>=◌,
}
use drogue_device.Hal.Timer.{Rates, Tim, Stm32, start, clear_update_interrupt_flag, cycles}
use drogue_device.Driver.Timer.{HalTimer, new, on_notify, first_free, put, start_shorter}
use drogue_device.Driver.Cell.{borrow, borrow_mut}
use drogue_device.Driver.Blinker.{System, off, on_start, handle, handle_all, start_all, ticks}
use drogue_device.Driver.Blinker.Phases.{reached, restarts, ticks-on_start}

abbrev rate_of : ℕ → Option ℕ
rate_of zero = none
rate_of (suc n) = some (1000000 / suc n)

abbrev rates : Rates
rates = record { to_rate = rate_of; to_millihertz = λ hertz. 1000 * hertz }

abbrev stm32 : Stm32
stm32 = record { pclk1 = 16000000; update = λ t. record t { uif = false } }

abbrev hal : HalTimer
hal = record {
  Timer = Tim;
  start = start stm32 rates;
  clear_update_interrupt_flag = clear_update_interrupt_flag;
}

abbrev stopped : Tim
stopped = record {
  cen = false;
  opm = false;
  uie = false;
  uif = false;
  psc = 0;
  arr = 0;
  expiration = 0;
}

abbrev before : ℕ → System hal
before delay = record {
  blinker = record { delay = delay };
  timer = new;
  hardware = stopped;
  lit = false;
}

ticks-on_start_example :
    (handle_all hal (on_start (record { delay = 500 })) (before 500) >>= ticks hal 3)
    ≡ reached hal 500 off (hal.start 500 stopped >>= restarts hal 500 3)
ticks-on_start_example = ticks-on_start hal 500 3 stopped

-- With a delay of 0 the timer does not start.
no_delay : handle_all hal (on_start (record { delay = 0 })) (before 0) ≡ panic
unfolding handle_all handle on_start on_notify new first_free put start_shorter start_all borrow
    borrow_mut start cycles
no_delay = refl

-- With one of 500 all four starts go well.
starts_well : (t : Tim) × (hal.start 500 stopped >>= restarts hal 500 3 ≡ done t)
unfolding start cycles
starts_well = (_, refl)
