-- ===== src/Raft/Commit.antt =====
-- `_advance_commit_index` and `_apply_committed`: a majority behind every commit, and every
-- committed command applied once, in order.
use native.Mathlib.Numerals.{add-one}
use sinkronisasi_dan_distrib.Base.{
  ℕ, zero, suc, ◌+◌, ◌-◌, ◌≤◌, ◌<◌, ◌≡◌, ◌≢◌, refl, sym, subst, inl, inr, false, some, List, [],
  ◌∷◌, ◌++◌, map, arith, leb, if◌then◌else◌, Bool-cases, Option-cases, length, take, drop,
  get_elem?, All, values, some_of_lt, drop_of_some,
}
use sinkronisasi_dan_distrib.Raft.{RaftNode, LogEntry, majority, term_at}
use sinkronisasi_dan_distrib.Raft.Tally.{insert_desc, sort_desc}
use sinkronisasi_dan_distrib.Raft.Leader.{
  applied, apply_next, apply_rounds, apply_committed, majority_index, advance_commit_index,
}

-- how many of the indexes are at least `i`
unfoldable pub count_from : ℕ → List ℕ → ℕ
count_from i [] = 0
count_from i (j ∷ js) = if leb i j then suc (count_from i js) else count_from i js

IsDescending : List ℕ → Type 0
IsDescending [] = Unit
IsDescending (a ∷ l) = All (λ b. b ≤ a) l × IsDescending l

All-insert_desc :
    (c a : ℕ) (l : List ℕ) → a ≤ c → All (λ b. b ≤ c) l → All (λ b. b ≤ c) (insert_desc a l)
unfolding insert_desc
All-insert_desc c a [] h k = (h, tt)
All-insert_desc c a (b ∷ l) h k = elim (Bool-cases (leb b a)) [
  | inl e ↦ rw (e, insert_desc) (h, k)
  | inr e ↦ rw (e, insert_desc) (k.0, All-insert_desc c a l h k.1)
]

All-le : (a b : ℕ) (l : List ℕ) → b ≤ a → All (λ x. x ≤ b) l → All (λ x. x ≤ a) l
All-le a b [] h k = tt
All-le a b (x ∷ l) h k = (omega arith, All-le a b l h k.1)

insert_desc-IsDescending : (a : ℕ) (l : List ℕ) → IsDescending l → IsDescending (insert_desc a l)
unfolding insert_desc IsDescending
insert_desc-IsDescending a [] s = (tt, tt)
insert_desc-IsDescending a (b ∷ l) s = elim (Bool-cases (leb b a)) [
  | inl e ↦ rw (e, insert_desc) ((ground arith, All-le a b l (ground arith) s.0), s)
  | inr e ↦
      rw (e, insert_desc)
        (All-insert_desc b a l (ground arith) s.0, insert_desc-IsDescending a l s.1)
]

sort_desc-IsDescending : (l : List ℕ) → IsDescending (sort_desc l)
unfolding sort_desc IsDescending
sort_desc-IsDescending [] = tt
sort_desc-IsDescending (a ∷ l) = insert_desc-IsDescending a _ (sort_desc-IsDescending l)

count_from-insert_desc :
    (i a : ℕ) (l : List ℕ) → count_from i (insert_desc a l) ≡ count_from i (a ∷ l)
unfolding count_from insert_desc
count_from-insert_desc i a [] = refl
count_from-insert_desc i a (b ∷ l) = ground (arith, count_from-insert_desc i a l)

count_from-sort_desc : (i : ℕ) (l : List ℕ) → count_from i (sort_desc l) ≡ count_from i l
unfolding count_from sort_desc
count_from-sort_desc i [] = refl
count_from-sort_desc i (a ∷ l) =
    ground (arith, count_from-insert_desc i a (sort_desc l), count_from-sort_desc i l)

le_of_All : (k c i : ℕ) (l : List ℕ) → All (λ b. b ≤ c) l → get_elem? l k ≡ some i → i ≤ c
le_of_All k c i [] h e = cc
le_of_All zero c i (x ∷ l) h e = ground (arith, h.0)
le_of_All (suc k) c i (x ∷ l) h e = le_of_All k c i l h.1 e

-- the `k`th entry of a descending list has `k` entries before it that are at least as large
count_from_at :
    (k i : ℕ) (l : List ℕ) → IsDescending l → get_elem? l k ≡ some i → k < count_from i l
unfolding count_from IsDescending
count_from_at k i [] s e = cc
count_from_at zero i (x ∷ l) s e = ground arith
count_from_at (suc k) i (x ∷ l) s e =
    ground (arith, count_from_at k i l s.1 e, le_of_All k x i l s.0 e)

module _ {C : Type 0} where
  majority_index_lem :
      (n : RaftNode C) (i : ℕ)
      → majority_index n ≡ some i
      → majority n ≤ count_from i (values n.match_index ++ length n.log ∷ [])
  unfolding majority_index
  majority_index_lem n i e =
      let all = values n.match_index ++ length n.log ∷ [] in
      omega (
        arith,
        count_from_at (majority n - 1) i (sort_desc all) (sort_desc-IsDescending all) e,
        count_from-sort_desc i all,
      )

  -- `_advance_commit_index` moves the commit index only forward, and only to an entry of the current
  -- term up to which `match_index`, the leader's own log counted, reaches for a majority of the
  -- cluster. The commit index that `append_entry` or a follower sets is not meant.
  pub advance_by_majority :
      (n n' : RaftNode C)
      → advance_commit_index n ≡ some n'
      → n'.commit_index ≢ n.commit_index
      → (n.commit_index < n'.commit_index)
        × (majority n ≤ count_from n'.commit_index (values n.match_index ++ length n.log ∷ []))
        × (term_at n.log n'.commit_index ≡ some n.current_term)
  unfolding advance_commit_index
  advance_by_majority n n' e h = elim (Option-cases (majority_index n)) [
    | inl missing ↦ absurd (ground arith)
    | inr (i, found) ↦
        let most = majority_index_lem n i found in
        let same : n'.commit_index ≡ i = ground arith in
        (
          ground arith,
          subst (λ j. majority n ≤ count_from j (values n.match_index ++ length n.log ∷ []))
              (sym same) most,
          ground arith,
        )
  ]

  abbrev pub commands : List (LogEntry C) → List C
  commands = map (λ e. e.command)

  abbrev pub all_applied : RaftNode C → RaftNode C
  all_applied n = record n { last_applied = n.commit_index }

  apply_rounds_lem :
      (f : ℕ) (n : RaftNode C)
      → n.last_applied + f ≡ n.commit_index
      → n.commit_index ≤ length n.log
      → apply_rounds f n ≡ applied (all_applied n) (commands (take f (drop n.last_applied n.log)))
  unfolding apply_rounds apply_next
  apply_rounds_lem zero n e h = same_state (omega arith)
    where
      same_state : n.last_applied ≡ n.commit_index → applied n [] ≡ applied (all_applied n) []
      same_state p = λ i. applied (record n { last_applied = p i }) []
  apply_rounds_lem (suc f) n e h =
      let (x, at) = some_of_lt n.last_applied n.log (omega arith) in
      let more : leb n.commit_index n.last_applied ≡ false = ground arith in
      let n' = record n { last_applied = n.last_applied + 1 } in
      let rest = apply_rounds_lem f n' (omega arith) h in
      ground (arith, drop_of_some n.last_applied n.log x at, add-one n.last_applied)

  -- `_apply_committed`, where the log reaches the commit index, hands the entries after
  -- `last_applied` up to the commit index to the callback, each once and in order, and ends with
  -- `last_applied` at the commit index.
  pub apply_committed_lem :
      (n : RaftNode C)
      → n.last_applied ≤ n.commit_index
      → n.commit_index ≤ length n.log
      → apply_committed n
        ≡ applied
            (all_applied n)
            (commands (take (n.commit_index - n.last_applied) (drop n.last_applied n.log)))
  unfolding apply_committed
  apply_committed_lem n before within =
      apply_rounds_lem (n.commit_index - n.last_applied) n (omega arith) within
