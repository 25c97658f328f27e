-- ===== src/Reaper/Claim.antt =====
-- The messages that `_reclaim_tasks_from_dead_worker` (src/fairlane/reaper.py) takes over.
use fairlane.Prelude.{
  String, Bool, false, ◌||◌, Option, none, some, List, [], ◌∷◌, ◌++◌, str_eq, if◌then◌else◌,
}
use fairlane.Answer.{Answer, ok, raise}

-- What XAUTOCLAIM returns: the cursor to go on from, and messages with the `task_id` of each.
abbrev pub Page : Type 0
Page = String × List (String × Option String)

-- The texts collected in `reclaimed_task_ids`, and the messages acknowledged and deleted.
pub record Claimed : Type 0 where
  pub ids : List String
  pub acked : List String

unfoldable pub member : String → List String → Bool
member s [] = false
member s (x ∷ l) = str_eq x s || member s l

-- `set.add`
unfoldable pub add : String → List String → List String
unfolding member
add s l = if member s l then l else l ++ s ∷ []

-- `if task_id_str: reclaimed_task_ids.add(task_id_str)`
unfoldable pub add_named : Option String → List String → List String
unfolding add
add_named none l = l
add_named (some s) l = if str_eq s "" then l else add s l

unfoldable pub claim_page : List (String × Option String) → Claimed → Claimed
unfolding add_named
claim_page [] c = c
claim_page ((message, task_id) ∷ rest) c =
    claim_page rest (record { ids = add_named task_id c.ids; acked = message ∷ c.acked })

-- The loop over the pages that the server answers, from a cursor. An exception ends it, and what
-- was collected by then is kept.
unfoldable pub claim : String → List (Answer Page) → Claimed → Claimed
unfolding claim_page
claim start [] c = c
claim start (raise e ∷ pages) c = c
claim start (ok (new, []) ∷ pages) c = c
claim start (ok (new, m ∷ ms) ∷ pages) c =
    let after = claim_page (m ∷ ms) c in
    let rest = claim new pages after in if str_eq new "0-0" || str_eq new start then after else rest
