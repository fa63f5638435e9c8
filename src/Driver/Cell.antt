-- ===== src/Driver/Cell.antt =====
-- `core::cell::RefCell`, as its documentation states it: a borrow that is in the way is a panic. A borrow
-- ends with the temporary or the variable that holds it; that of the scrutinee of an `if let` lives to
-- the end of the whole statement.
use drogue_device.Base.{Outcome, done, panic}

pub data Borrow : Type 0 where
  unused reading writing : Borrow

pub record RefCell {ℓ} (A : Type ℓ) : Type ℓ where
  pub value : A
  pub state : Borrow

module _ {ℓ} {A : Type ℓ} where
  abbrev pub cell : A → RefCell A
  cell a = record { value = a; state = unused }

  abbrev pub borrow_as : A → Borrow → Outcome (RefCell A)
  borrow_as a unused = done (record { value = a; state = reading })
  borrow_as a reading = done (record { value = a; state = reading })
  borrow_as a writing = panic

  unfoldable pub borrow : RefCell A → Outcome (RefCell A)
  borrow c = borrow_as c.value c.state

  abbrev pub borrow_mut_as : A → Borrow → Outcome (RefCell A)
  borrow_mut_as a unused = done (record { value = a; state = writing })
  borrow_mut_as a reading = panic
  borrow_mut_as a writing = panic

  unfoldable pub borrow_mut : RefCell A → Outcome (RefCell A)
  borrow_mut c = borrow_mut_as c.value c.state
