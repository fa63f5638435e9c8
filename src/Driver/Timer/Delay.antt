-- ===== src/Driver/Timer/Delay.antt =====
-- A request for a delay: the borrow by which the slot was found is in the way of the one that fills it.
use drogue_device.Base.{ℕ, ◌≡◌, refl, Option, none, some, [], done, panic}
use drogue_device.Driver.Cell.{cell, unused, borrow_mut}
use drogue_device.Driver.Timer.{Shared, at_once, on_request, first_free}

module _ {E : Type 0} where
  abbrev pub DelayCase : ℕ → Shared E → Option ℕ → Type 0
  DelayCase ms s none =
      on_request ms s
      ≡ done (at_once, record s { delay_deadlines = cell s.delay_deadlines.value }, [])
  DelayCase ms s (some index) = on_request ms s ≡ panic

  -- For a timer whose delay cell is not borrowed, a Delay request panics if there is a free slot;
  -- if there is none it is answered at once and the timer does not change.
  pub on_request-DelayCase :
      (ms : ℕ) (s : Shared E)
      → s.delay_deadlines.state ≡ unused
      → DelayCase ms s (first_free s.delay_deadlines.value)
  unfolding on_request borrow_mut
  on_request-DelayCase ms s h = go (first_free s.delay_deadlines.value) refl
    where
      go : (o : Option ℕ) → first_free s.delay_deadlines.value ≡ o → DelayCase ms s o
      go none e = rw (h, e) refl
      go (some index) e = rw (h, e) refl
