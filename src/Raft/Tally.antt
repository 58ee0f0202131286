-- ===== src/Raft/Tally.antt =====
-- src/consensus/raft.py: the counts and the sort by which a leader decides.
use sinkronisasi_dan_distrib.Base.{
  ℕ, suc, Bool, true, Option, none, some, List, [], ◌∷◌, if◌then◌else◌, leb,
}
use sinkronisasi_dan_distrib.Raft.{VoteReply}

abbrev pub or_else : ℕ → Option ℕ → ℕ
or_else d none = d
or_else d (some i) = i

-- the tally of `_replicate_log`: an exception, `none`, and a failure do not count
unfoldable pub successes : List (Option Bool) → ℕ
successes [] = 1
successes (some true ∷ rs) = suc (successes rs)
successes (_ ∷ rs) = successes rs

-- `list.sort(reverse=True)`
unfoldable pub insert_desc : ℕ → List ℕ → List ℕ
insert_desc a [] = a ∷ []
insert_desc a (b ∷ bs) = if leb b a then a ∷ b ∷ bs else b ∷ insert_desc a bs

unfoldable pub sort_desc : List ℕ → List ℕ
unfolding insert_desc
sort_desc [] = []
sort_desc (a ∷ as') = insert_desc a (sort_desc as')

-- the tally of `_start_election`: `none` is an exception or a response with no data
unfoldable pub votes : List (Option VoteReply) → ℕ
votes [] = 1
votes (none ∷ rs) = votes rs
votes (some r ∷ rs) = if r.vote_granted then suc (votes rs) else votes rs
