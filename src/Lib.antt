-- ===== src/Lib.antt =====
-- Drogue Device, an async actor framework for embedded devices: a verification library of its core.
--
-- A program is a set of actors. Each has a mailbox and handles one item of it at a time; the executor
-- polls the actors whose flags are READY until none is; interrupts reach the actors that registered
-- for them. Synchronization (mutex, semaphore) and drivers (timer, UART) are actors too, and mailbox
-- items are allocated from a heap of the framework's own.
--
-- Base: shared names, lists and words over the native numbers. `Outcome` is the result of code that
--   may panic; a usize has 32 bits, and its operations wrap.
-- Fifo: what the program uses of heapless::spsc::Queue, as an interface; a bounded list meets it.
-- Alloc: src/alloc. Align and Heap are src/alloc/cortex_m/alloc/mod.rs, Layout what is used of
--   layout.rs, Hole the hole list of hole.rs: the list of (address, size) pairs stands for the linked
--   holes in memory, and its first pair for the dummy at the head. Objects is
--   src/alloc/cortex_m/mod.rs, whose blocks begin with their layout, and Rc the counter of `Rc` in
--   src/alloc/mod.rs.
-- Actor: Code is the trait Actor with src/handler.rs, whose async blocks are tasks with a poll
--   function. Item is OnLifecycle, OnNotify and OnRequest of src/actor.rs; Context is ActorContext
--   (new, notify, request, lifecycle) and the loop do_poll of src/supervisor/actor_executor.rs. The
--   loop runs on fuel: one more than the items in flight and in the mailbox is enough, since handlers
--   do not send to their own actor. Notify is notify statement by statement, with an interrupt at any
--   of them. Handle is CompletionHandle, by which a request is answered, and Request follows a request
--   from the mailbox to the requester, with fuel 2 for each poll of the one item in flight.
-- Supervisor: Executor is Supervised and ActorExecutor of src/supervisor/actor_executor.rs, over the
--   polls of its actors. The run to quiescence runs on fuel: more than the ready actors and the
--   wake-ups still to come is enough; Actors runs it on the contexts of Actor.Context, whose
--   handlers send to each other and wake each other: what a poll posts is kept by the state that the
--   actors share until the end of the poll. Interrupts is
--   src/supervisor/interrupt_dispatcher.rs, and Mount is src/supervisor/mod.rs with the
--   mounting of contexts in src/actor.rs and src/interrupt.rs.
--   Preemption is do_poll again, by single accesses to the fields of one actor's context, as a step
--   relation in which interrupts, messages and wakers come between any two: Phases and Notices are its
--   invariants, Safety and Wakeups what follows of the reachable states, and Refine ties it to the
--   do_poll of Actor.Context.
-- Device: src/device.rs, from new to the executor's loop, by the statements of mount, between which
--   an interrupt may come; the device of the program is the list of contexts that it mounts, fewer
--   than 16 next to the event bus. Mounted is what mounting leaves, Packages the mounting of the
--   drivers' packages, and Bus is src/bus.rs.
-- Sync: src/synchronization. Signal (signal.rs), Mutex (mutex.rs) and Semaphore (sempahore.rs); the
--   last two are instances of Actor.Code. A waker is a number.
-- Driver: Cell is core::cell::RefCell, Timer is TimerActor of src/driver/timer/mod.rs with the
--   DelayFuture in Future, Uart is src/driver/uart/mod.rs over the trait of src/hal/uart/mod.rs as an
--   interface. Blinker is src/driver/led/blinker.rs with the LED of src/driver/led/simple.rs, run on
--   the timer, over the trait Timer of src/hal/timer/mod.rs as an interface: each message is handled
--   before the next interrupt. I2c is the actor of src/driver/i2c/mod.rs, over a bus as an interface.
--   Hts221 is src/driver/sensor/hts221: a module per control register, Calibration (f32 is a
--   parameter), and Sensor, whose loop on start-up runs on fuel, two rounds of which are enough
--   where the sensor answers, with the interrupt of its pin in Ready. Matrix is
--   src/driver/led/matrix.rs: Bitmap its frame, Font its letters. Pins is src/driver/button.rs with
--   src/hal/gpio. Memory is src/driver/memory.rs, over the program of Alloc.Objects, in whose heap
--   the items of its mailbox lie.
-- Hal: src/hal. Nrf is the UARTE of src/hal/uart/nrf.rs, an instance of the interface of Driver.Uart;
--   the peripheral is a parameter, and a loop that waits for it runs on fuel: as many steps as the
--   peripheral takes to answer. Timer is src/hal/timer, over the conversions of the time domain.
--
-- Not modelled: log output (but that of Memory) and debug assertions; failure to allocate a mailbox
-- item; binding and configuration, which store references; addresses, which pass calls on; raw
-- pointers and pinning; interrupts that preempt interrupts; the time types of src/domain/time (a
-- copy of the embedded-time crate; milliseconds are numbers here), and what of layout.rs is a copy
-- of core::alloc; temperatures in floating point; examples and macros.
pub mod Base
pub mod Fifo
pub mod Device
pub mod Hal
pub mod Alloc
pub mod Actor
pub mod Sync
pub mod Supervisor
pub mod Driver
