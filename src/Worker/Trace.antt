-- ===== src/Worker/Trace.antt =====
-- What the trace of a worker (src/fairlane/worker/main.py) says of one message, tenant or slot.
use fairlane.Prelude.{ℕ, suc, String, ◌≡◌, refl, ◌&&◌, List, [], ◌∷◌, str_eq, ◌==◌, if◌then◌else◌}
use fairlane.Worker.State.{Action, committed, xack, decr_instream, release_slot}

-- How often the message was acknowledged.
abbrev pub acks : String → List Action → ℕ
acks m [] = 0
acks m (xack n ∷ l) = if str_eq n m then suc (acks m l) else acks m l
acks m (_ ∷ l) = acks m l

-- How many commits stand after the last acknowledgement of the message.
abbrev pub commits_since_ack : String → List Action → ℕ
commits_since_ack m [] = 0
commits_since_ack m (xack n ∷ l) = if str_eq n m then 0 else commits_since_ack m l
commits_since_ack m (committed ∷ l) = suc (commits_since_ack m l)
commits_since_ack m (_ ∷ l) = commits_since_ack m l

-- How often the tenant's count of tasks in the stream was lowered.
abbrev pub decrs : String → List Action → ℕ
decrs tenant [] = 0
decrs tenant (decr_instream n ∷ l) =
    if str_eq n tenant then suc (decrs tenant l) else decrs tenant l
decrs tenant (_ ∷ l) = decrs tenant l

-- How often the concurrency slot of the task was given back.
abbrev pub releases : String → ℕ → List Action → ℕ
releases tenant id [] = 0
releases tenant id (release_slot n i ∷ l) =
    if str_eq n tenant && i == id then suc (releases tenant id l) else releases tenant id l
releases tenant id (_ ∷ l) = releases tenant id l

-- Two traces lowered every tenant's count, and gave back every slot, as often.
abbrev pub SameCounts : List Action → List Action → Type 0
SameCounts before after =
    ((tenant : String) → decrs tenant after ≡ decrs tenant before)
    × ((tenant : String) (id : ℕ) → releases tenant id after ≡ releases tenant id before)

pub SameCounts-refl : (l : List Action) → SameCounts l l
SameCounts-refl l = (λ _. refl, λ _ _. refl)
