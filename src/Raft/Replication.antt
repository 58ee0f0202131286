-- ===== src/Raft/Replication.antt =====
-- `handle_append_entries`: the follower's log after the request that the leader builds for it.
use sinkronisasi_dan_distrib.Base.{
  ℕ, zero, suc, ◌+◌, ◌-◌, ◌≤◌, String, ◌≡◌, refl, ◌∙◌, sym, ap, subst, inl, inr, true, some, List,
  [], ◌∷◌, arith, Option-cases, length, get_elem?, take, drop, lt_of_some, ℕ_discrete,
}
use sinkronisasi_dan_distrib.Raft.{
  RaftNode, AppendRequest, handle_append_entries, follow, commit_to, LogEntry, term_at, or_zero,
  store_entries, prev_matches,
}
use sinkronisasi_dan_distrib.Raft.Leader.{append_request, next_for}
use sinkronisasi_dan_distrib.Raft.Stored.{
  HasTerm, Holds, get_elem?_of_take, store_entries-before, store_entries-Holds,
}

append_success :
    {C : Type 0} (now : ℕ) (q : AppendRequest C) (n : RaftNode C)
    → (handle_append_entries now q n).1.success ≡ true
    → ((handle_append_entries now q n).0.log ≡ store_entries n.log q.prev_log_index q.entries)
      × (prev_matches n.log q.prev_log_index q.prev_log_term ≡ true)
unfolding handle_append_entries follow commit_to
append_success now q n h = (ground arith, ground arith)

module _ {C : Type 0} where
  get_elem?-drop_at :
      (k i : ℕ) (l : List (LogEntry C)) → get_elem? (drop k l) i ≡ get_elem? l (k + i)
  get_elem?-drop_at zero i l = ap (get_elem? l) (zero_plus i)
    where
      zero_plus : (i : ℕ) → i ≡ 0 + i
      zero_plus i = omega arith
  get_elem?-drop_at (suc k) i [] = refl
  get_elem?-drop_at (suc k) i (x ∷ l) = get_elem?-drop_at k i l ∙ ap (get_elem? (x ∷ l)) (shift k i)
    where
      shift : (k i : ℕ) → suc (k + i) ≡ suc k + i
      shift k i = omega arith

  prev_matches-within : (f : List (LogEntry C)) (k t : ℕ) → prev_matches f k t ≡ true → k ≤ length f
  unfolding prev_matches term_at
  prev_matches-within f zero t h = omega arith
  prev_matches-within f (suc i) t h = elim (Option-cases (get_elem? f i)) [
    | inl missing ↦ absurd (ground arith)
    | inr (old, found) ↦ omega (arith, lt_of_some i f old found)
  ]

  prev_matches-HasTerm :
      (f l : List (LogEntry C)) (j : ℕ) (e : LogEntry C)
      → get_elem? l j ≡ some e
      → prev_matches f (suc j) (or_zero (term_at l (suc j))) ≡ true
      → HasTerm f j e.term
  unfolding prev_matches term_at HasTerm
  prev_matches-HasTerm f l j e at h = elim (Option-cases (get_elem? f j)) [
    | inl missing ↦ absurd (ground arith)
    | inr (old, found) ↦ (old, found, ground arith)
  ]

  -- A follower that answers success to the request which the leader builds for it holds, at the
  -- position before the request's entries and at every later one of the leader's log, the leader's
  -- entry, or still its own where that is of the same term; below the request's entries its log is
  -- as it was.
  pub append-replicates :
      (now : ℕ) (peer : String) (ld n : RaftNode C) (j : ℕ) (e : LogEntry C)
      → (handle_append_entries now (append_request peer ld) n).1.success ≡ true
      → get_elem? ld.log j ≡ some e
      → next_for peer ld ≤ j + 1
      → let n' = (handle_append_entries now (append_request peer ld) n).0 in
        Holds n.log n'.log j e × (take (next_for peer ld) n'.log ≡ take (next_for peer ld) n.log)
  append-replicates now peer ld n j e ok at from =
      let k = next_for peer ld in
      let (written, checked) = append_success now (append_request peer ld) n ok in
      let prev : prev_matches n.log k (or_zero (term_at ld.log k)) ≡ true =
        unfold append_request in checked in
      let within : k ≤ length n.log = prev_matches-within n.log k _ prev in
      subst (λ l. Holds n.log l j e × (take k l ≡ take k n.log)) (sym written)
        (unfold append_request in
          (held k prev within from, store_entries-before (drop k ld.log) n.log k within))
    where
      held :
          (k : ℕ)
          → prev_matches n.log k (or_zero (term_at ld.log k)) ≡ true
          → k ≤ length n.log
          → k ≤ j + 1
          → Holds n.log (store_entries n.log k (drop k ld.log)) j e
      held k prev within from = elim (ℕ_discrete k (suc j)) [
        | yes last ↦
            unfold HasTerm in
            let (old, found, same) =
              prev_matches-HasTerm n.log ld.log j e at
                (subst (λ i. prev_matches n.log i (or_zero (term_at ld.log i)) ≡ true) last prev) in
            let kept =
              get_elem?_of_take n.log (store_entries n.log k (drop k ld.log)) k j (omega arith)
                (store_entries-before (drop k ld.log) n.log k within) in
            unfold Holds in inr (kept, (old, kept ∙ found, same))
        | no inside ↦
            let back : k + (j - k) ≡ j = omega (arith, inside) in
            subst (λ i. Holds n.log (store_entries n.log k (drop k ld.log)) i e) back
              (store_entries-Holds (drop k ld.log) n.log k (j - k) e within
                (get_elem?-drop_at k (j - k) ld.log ∙ ap (get_elem? ld.log) back ∙ at))
      ]
