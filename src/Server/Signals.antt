-- ===== src/Server/Signals.antt =====
-- src/lib/server.cpp: the signals of a server's threads. A mask tells which signals are blocked, and
-- the handlers change the flags of the thread that they run in.
use fcgiserver.Prelude.{
  ◌≡◌, ◌∙◌, ap, sym, refl, ℕ, Bool, true, false, ◌||◌, not, List, [], ◌∷◌, Option, none, some,
  if◌then◌else◌,
}

pub data Signal : Type 0 where
  sigint sigterm sighup sigusr1 sigusr2 : Signal
  other_signal : ℕ → Signal

-- `shutdown_triggered` and `tick_triggered`, which each thread has of its own.
pub record Flags : Type 0 where
  pub shutdown_triggered : Bool
  pub tick_triggered : Bool

abbrev pub Mask : Type 0
Mask = Signal → Bool

abbrev is_terminating : Signal → Bool
is_terminating sigint = true
is_terminating sigterm = true
is_terminating sighup = true
is_terminating _ = false

abbrev is_ours : Signal → Bool
is_ours sigusr1 = true
is_ours sigusr2 = true
is_ours _ = false

-- `SIG_BLOCK` and `SIG_UNBLOCK` of the three signals.
abbrev pub block_terminating : Mask → Mask
block_terminating mask signal = mask signal || is_terminating signal

abbrev pub unblock_terminating : Mask → Mask
unblock_terminating mask signal = if is_terminating signal then false else mask signal

-- `sigwait` takes the first signal of its set; the others stay pending.
abbrev take_terminating : List Signal → Option (Signal × List Signal)
take_terminating [] = none
take_terminating (signal ∷ pending) =
    if is_terminating signal then some (signal, pending) else elim (take_terminating pending) [
      | none ↦ none
      | some (found, later) ↦ some (found, signal ∷ later)
    ]

-- `Server::wait_for_terminate_signal`, on the signals that arrive: the signal, those that stay
-- pending and the mask afterwards; `none` is that it waits for ever.
unfoldable pub wait_for_terminate_signal : List Signal → Mask → Option (Signal × List Signal × Mask)
wait_for_terminate_signal arriving mask = elim (take_terminating arriving) [
  | none ↦ none
  | some (signal, pending) ↦ some (signal, pending, unblock_terminating (block_terminating mask))
]

-- `sigusr1` and `sigusr2`, as the signals that `install_thread_signal_handlers` installs them for; the
-- other signals are blocked in a thread of the server.
unfoldable pub handle_signal : Signal → Flags → Flags
handle_signal sigusr1 flags = record flags { shutdown_triggered = true }
handle_signal sigusr2 flags = record flags { tick_triggered = true }
handle_signal _ flags = flags

-- `install_thread_signal_handlers`
unfoldable pub thread_mask : Mask
thread_mask signal = not (is_ours signal)

abbrev pub deliver : Signal → Flags → Flags
deliver signal flags = if thread_mask signal then flags else handle_signal signal flags

-- Signals that arrive at a thread, in order.
unfoldable pub deliver_all : List Signal → Flags → Flags
deliver_all [] flags = flags
deliver_all (signal ∷ signals) flags = deliver_all signals (deliver signal flags)

abbrev pub has_shutdown : List Signal → Bool
has_shutdown [] = false
has_shutdown (sigusr1 ∷ signals) = true
has_shutdown (_ ∷ signals) = has_shutdown signals

abbrev pub has_tick : List Signal → Bool
has_tick [] = false
has_tick (sigusr2 ∷ signals) = true
has_tick (_ ∷ signals) = has_tick signals

abbrev flags_of : Bool → Bool → Flags
flags_of shutdown tick = record { shutdown_triggered = shutdown; tick_triggered = tick }

or_false : (b : Bool) → (b || false) ≡ b
or_false true = refl
or_false false = refl

or_true : (b : Bool) → (b || true) ≡ true
or_true true = refl
or_true false = refl

-- A thread is told to shut down exactly by SIGUSR1, and to tick exactly by SIGUSR2: after any signals
-- each flag is set if it was set before or its signal was among them, and no other signal counts.
pub deliver_all-flags :
    (signals : List Signal) (flags : Flags)
    → deliver_all signals flags ≡ record {
      shutdown_triggered = flags.shutdown_triggered || has_shutdown signals;
      tick_triggered = flags.tick_triggered || has_tick signals;
    }
unfolding deliver_all thread_mask handle_signal
deliver_all-flags [] flags =
    ap (λ b. flags_of b flags.tick_triggered) (sym (or_false flags.shutdown_triggered))
    ∙ ap (flags_of (flags.shutdown_triggered || false)) (sym (or_false flags.tick_triggered))
deliver_all-flags (sigint ∷ signals) flags = deliver_all-flags signals flags
deliver_all-flags (sigterm ∷ signals) flags = deliver_all-flags signals flags
deliver_all-flags (sighup ∷ signals) flags = deliver_all-flags signals flags
deliver_all-flags (other_signal n ∷ signals) flags = deliver_all-flags signals flags
deliver_all-flags (sigusr1 ∷ signals) flags =
    deliver_all-flags signals (record flags { shutdown_triggered = true })
    ∙ ap (λ b. flags_of b (flags.tick_triggered || has_tick signals))
        (sym (or_true flags.shutdown_triggered))
deliver_all-flags (sigusr2 ∷ signals) flags =
    deliver_all-flags signals (record flags { tick_triggered = true })
    ∙ ap (λ b. flags_of (flags.shutdown_triggered || has_shutdown signals) b)
        (sym (or_true flags.tick_triggered))
