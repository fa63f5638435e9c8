-- ===== src/Supervisor/Executor/Keeps.antt =====
-- What every poll keeps, the run of the executor keeps.
use drogue_device.Base.{
  ℕ, zero, suc, Bool, true, false, List, length, Option, none, some, Outcome, done, panic,
}
use drogue_device.Supervisor.Executor.{
  System, poll, then_pass, pass, after_pass, run_until_quiescence,
}

module _ {World : Type 0} (do_poll : ℕ → World → Outcome (Bool × World × List ℕ))
    (P : System World → Type 0) where
  -- No panic, and `P` of the state.
  abbrev pub Sound : Outcome (Bool × System World) → Type 0
  Sound panic = ⊥
  Sound (done (b, s)) = P s

  abbrev pub SoundRun : Option (Outcome (System World)) → Type 0
  SoundRun none = Unit {0}
  SoundRun (some panic) = ⊥
  SoundRun (some (done s)) = P s

  module _ (keeps : (i : ℕ) (s : System World) → P s → Sound (poll do_poll i s)) where
    then_pass-Sound :
        (rest : System World → Outcome (Bool × System World)) (o : Outcome (Bool × System World))
        → ((s : System World) → P s → Sound (rest s))
        → Sound o
        → Sound (then_pass do_poll rest o)
    then_pass-Sound rest (done (b, s)) h v = go (rest s) (h s v)
      where
        go :
            (o : Outcome (Bool × System World))
            → Sound o
            → Sound (then_pass do_poll (λ t. o) (done (b, s)))
        go (done (c, t)) v = v
        go panic v = absurd v
    then_pass-Sound rest panic h v = absurd v

    pass-Sound : (count i : ℕ) (s : System World) → P s → Sound (pass do_poll count i s)
    unfolding pass
    pass-Sound zero i s v = v
    pass-Sound (suc count) i s v =
        then_pass-Sound (pass do_poll count (suc i)) (poll do_poll i s)
          (λ t w. pass-Sound count (suc i) t w) (keeps i s v)

    after_pass-Sound :
        (again : System World → Option (Outcome (System World))) (o : Outcome (Bool × System World))
        → ((s : System World) → P s → SoundRun (again s))
        → Sound o
        → SoundRun (after_pass do_poll again o)
    after_pass-Sound again (done (true, s)) h v = h s v
    after_pass-Sound again (done (false, s)) h v = v
    after_pass-Sound again panic h v = absurd v

    pub run-Sound :
        (fuel : ℕ) (s : System World) → P s → SoundRun (run_until_quiescence do_poll fuel s)
    unfolding run_until_quiescence
    run-Sound zero s v = tt
    run-Sound (suc fuel) s v =
        after_pass-Sound (run_until_quiescence do_poll fuel) _ (λ t w. run-Sound fuel t w)
          (pass-Sound (length s.states) 0 s v)
