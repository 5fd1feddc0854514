-- ===== src/Client/Life/Laws.antt =====
-- That `Close` can be called any number of times.
use goros.Common.{ℕ, zero, suc, true, Option, none, ◌≡◌, refl}
use goros.Roserr.{GoError}
use goros.Proto.Cancel.{operate, call_through, step}
use goros.Proto.Cancel.Calls.{state}
use goros.Client.Processor.{normal}
use goros.Client.Life.{Life, new_life, close_life, close_times}

-- Both channels closed, and the connection closed once.
abbrev pub closed_life : Life
closed_life = record {
  reader = state true 0;
  writer = state true 0;
  closing = true;
  rwc_closes = 1;
}

close_life-new : (e : Option GoError) → close_life e new_life ≡ normal (closed_life, e)
unfolding close_life operate call_through step
close_life-new e = refl

close_life-closed : (e : Option GoError) → close_life e closed_life ≡ normal (closed_life, none)
unfolding close_life operate call_through step
close_life-closed e = refl

close_times-closed :
    (n : ℕ) (e : Option GoError) → close_times n e (closed_life, none) ≡ normal (closed_life, none)
unfolding close_times
close_times-closed zero e = refl
close_times-closed (suc n) e = rw (close_life-closed e) (close_times-closed n e)

-- The first `Close` of a client closes both channels and the connection, and returns what the
-- connection's own `Close` does; every later one returns no error and changes nothing: nothing is
-- closed twice, and no call panics.
pub close_times-new :
    (n : ℕ) (e : Option GoError)
    → (close_times 1 e (new_life, none) ≡ normal (closed_life, e))
      × (close_times (suc (suc n)) e (new_life, none) ≡ normal (closed_life, none))
unfolding close_times
close_times-new n e = (
  rw (close_life-new e) refl,
  rw (close_life-new e, close_life-closed e) (close_times-closed n e),
)
