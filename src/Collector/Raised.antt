-- ===== src/Collector/Raised.antt =====
-- The exceptions that end a round of src/fairlane/metrics_collector.py.
use fairlane.Prelude.{◌≡◌, refl, Option, none, some}
use fairlane.Retry.{Exception}
use fairlane.Collector.{Gauges, Outcome, unless_raised}

-- What holds before and is kept by what is left to do holds in either case.
pub unless_raised-keeps :
    (P : Gauges → Type 0) (x : Option Exception) (f : Gauges → Outcome)
    → ((h : Gauges) → P h → P (f h).1)
    → (h : Gauges) → P h
    → P (unless_raised x f h).1
unless_raised-keeps P none f k h e = k h e
unless_raised-keeps P (some x) f k h e = e

pub not_raised :
    (x : Option Exception) (f : Gauges → Outcome) (g : Gauges)
    → x ≡ none
    → unless_raised x f g ≡ f g
not_raised none f g h = refl
not_raised (some e) f g h = absurd (cc)

pub has_raised :
    (x : Option Exception) (f : Gauges → Outcome) (g : Gauges) (e : Exception)
    → x ≡ some e
    → unless_raised x f g ≡ (some e, g)
has_raised none f g e h = absurd (cc)
has_raised (some x) f g e h = cc
