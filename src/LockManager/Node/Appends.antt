-- ===== src/LockManager/Node/Appends.antt =====
-- `append_entry` of a leader: on success its command and all before it in the log are applied.
use sinkronisasi_dan_distrib.Base.{
  ℕ, zero, suc, ◌+◌, ◌-◌, ◌≤◌, ◌≡◌, refl, true, false, List, [], ◌∷◌, ◌++◌, ◌∙◌, sym, ap, subst,
  inl, inr, Bool-cases, ltb, arith, length, length-append, take, drop, take_all,
}
use sinkronisasi_dan_distrib.Raft.{RaftNode, LogEntry, is_leader}
use sinkronisasi_dan_distrib.Raft.Leader.{append_local, commit_own}
use sinkronisasi_dan_distrib.Raft.Commit.{commands, all_applied}
use sinkronisasi_dan_distrib.LockManager.{Command}
use sinkronisasi_dan_distrib.LockManager.Node.{
  DistributedLockManagerNode, Appended, returned, raised, apply_commands, apply_all, replicate_log,
  finish_append, append_entry, Network,
}
use sinkronisasi_dan_distrib.LockManager.Node.Applies.{apply_commands-raft, apply_commands-append}
use sinkronisasi_dan_distrib.LockManager.Node.Commits.{
  Fits, Quiet, LogEnds, replicate_log-LogEnds, apply_all-Fits,
}

module _ {A : Type 0} where
  take_rest : (k j : ℕ) (l : List A) → length l ≤ k + j → take k l ++ take j (drop k l) ≡ l
  take_rest zero j l h = take_all j l (omega arith)
  take_rest (suc k) zero [] h = refl
  take_rest (suc k) (suc j) [] h = refl
  take_rest (suc k) j (x ∷ l) h = ap (λ s. x ∷ s) (take_rest k j l (omega arith))

  take_twice :
      (m k j : ℕ) (l : List A)
      → m + k ≤ length l
      → length l ≤ m + k + j
      → take k (drop m l) ++ take j (drop (m + k) l) ≡ drop m l
  take_twice zero k j l h b = rw (zero_left k) (take_rest k j l (omega arith))
    where
      zero_left : (k : ℕ) → 0 + k ≡ k
      zero_left k = omega arith
  take_twice (suc m) k j [] h b = absurd (omega arith)
  take_twice (suc m) k j (x ∷ l) h b =
      rw (shift m k) (take_twice m k j l (omega arith) (omega arith))
    where
      shift : (m k : ℕ) → suc m + k ≡ suc (m + k)
      shift m k = omega arith

  drop-append : (m : ℕ) (l k : List A) → m ≤ length l → drop m (l ++ k) ≡ drop m l ++ k
  drop-append zero l k h = refl
  drop-append (suc m) [] k h = absurd (omega arith)
  drop-append (suc m) (x ∷ l) k h = drop-append m l k (omega arith)

commands-append : (a b : List (LogEntry Command)) → commands (a ++ b) ≡ commands a ++ commands b
commands-append [] b = refl
commands-append (x ∷ a) b = ap (λ s. x.command ∷ s) (commands-append a b)

-- what is applied first and what then, of a log whose last entry is `e`
all_commands :
    (m k at : ℕ) (log l : List (LogEntry Command)) (e : LogEntry Command)
    → m ≤ length log
    → l ≡ log ++ e ∷ []
    → at ≡ m + k
    → m + k ≤ length (log ++ e ∷ [])
    → commands (take k (drop m (log ++ e ∷ [])))
        ++ commands (take (length (log ++ e ∷ []) - at) (drop at l))
      ≡ commands (drop m log) ++ e.command ∷ []
all_commands m k at log l e h same now within =
    rw (same, now)
      (sym (commands-append (take k (drop m (log ++ e ∷ []))) _)
        ∙ ap commands (
            take_twice m k _ (log ++ e ∷ []) within (omega (arith, within))
            ∙ drop-append m log (e ∷ []) h)
        ∙ commands-append (drop m log) (e ∷ []))

commit_own_lem :
    (i : ℕ) (r : RaftNode Command)
    → r.commit_index ≤ i
    → commit_own i r ≡ record r { commit_index = i }
unfolding commit_own
commit_own_lem i r h = elim (Bool-cases (ltb r.commit_index i)) [
  | inl less ↦ rw (less, commit_own) refl
  | inr more ↦ rw (more, commit_own) (reached (ground arith))
]
  where
    reached : r.commit_index ≡ i → r ≡ record r { commit_index = i }
    reached p = λ j. record r { commit_index = p j }

-- The entry of the command `c` is in the log, and all that was not applied before is applied.
pub record Committed (c : Command) (n n' : DistributedLockManagerNode) : Type 0 where
  pub raft : RaftNode Command
  pub after :
      n'
      ≡ apply_commands
          (commands (drop n.raft.last_applied n.raft.log) ++ c ∷ [])
          (record n { raft = raft })
  pub logged : raft.log ≡ n.raft.log ++ record { term = n.raft.current_term; command = c } ∷ []
  pub all_done : raft.last_applied ≡ length raft.log
  pub all_committed : raft.commit_index ≡ length raft.log

-- how `append_entry` of a leader ends
abbrev pub AppendEnds : Command → DistributedLockManagerNode → Appended → Type 0
AppendEnds c n (raised n') =
    (r : RaftNode Command) × (n' ≡ record n { raft = r })
    × (r.log ≡ n.raft.log ++ record { term = n.raft.current_term; command = c } ∷ [])
AppendEnds c n (returned n' true) = Committed c n n'
AppendEnds c n (returned n' false) =
    (r : RaftNode Command) × (n' ≡ record n { raft = r })
    × (r.log ≡ n.raft.log ++ record { term = n.raft.current_term; command = c } ∷ [])

finish_append-AppendEnds :
    (c : Command) (n : DistributedLockManagerNode) (o : Appended)
    → Fits n.raft
    → LogEnds (record n { raft = (append_local c n.raft).0 }) o
    → AppendEnds c n (finish_append (append_local c n.raft).1 o)
unfolding finish_append append_local
finish_append-AppendEnds c n (raised n') v e = e
finish_append-AppendEnds c n (returned n' false) v e = e
finish_append-AppendEnds c n (returned n' true) v x =
    let n₁ = record n { raft = (append_local c n.raft).0 } in
    let i = length n₁.raft.log in
    let first = commands (take x.k (drop n₁.raft.last_applied n₁.raft.log)) in
    let second = commands (take (i - x.raft.last_applied) (drop x.raft.last_applied x.raft.log)) in
    let r = record x.raft { commit_index = i } in
    let found : n' ≡ record (apply_commands first n₁) { raft = x.raft } =
      x.after ∙ apply_commands-raft first x.raft n₁ in
    let own : commit_own i x.raft ≡ r =
      commit_own_lem i x.raft (omega (arith, x.now_committed, x.within)) in
    let fits : Fits r = record {
      before = omega (arith, x.now_applied, x.within);
      within = omega (arith, ap length x.same_log);
    } in
    let ended =
      ap (λ (m : DistributedLockManagerNode). apply_all (record m { raft = commit_own i m.raft }))
        found
      ∙ ap (λ s. apply_all (record (apply_commands first n₁) { raft = s })) own
      ∙ apply_all-Fits (record (apply_commands first n₁) { raft = r }) fits in
    subst (AppendEnds c n) (sym ended) (record {
      raft = all_applied r;
      after =
          ap (apply_commands second) (sym (apply_commands-raft first (all_applied r) n₁))
          ∙ apply_commands-append first _ (record n { raft = all_applied r })
          ∙ ap (λ cs. apply_commands cs (record n { raft = all_applied r }))
              (all_commands n.raft.last_applied x.k x.raft.last_applied n.raft.log x.raft.log _
                (omega (arith, v.before, v.within)) x.same_log x.now_applied x.within);
      logged = x.same_log;
      all_done = sym (ap length x.same_log);
      all_committed = sym (ap length x.same_log);
    })

module _ (net : Network) (quiet : Quiet net) where
  pub append_entry-AppendEnds :
      (c : Command) (n : DistributedLockManagerNode)
      → is_leader n.raft ≡ true
      → Fits n.raft
      → AppendEnds c n (append_entry net c n)
  unfolding append_entry append_local
  append_entry-AppendEnds c n lead v =
      let n₁ = record n { raft = (append_local c n.raft).0 } in
      rw (lead, append_entry)
        (finish_append-AppendEnds c n (replicate_log net n₁) v (
          replicate_log-LogEnds net quiet n₁ (record {
            before = v.before;
            within = omega (
              arith,
              v.within,
              length-append n.raft.log (record { term = n.raft.current_term; command = c } ∷ []),
            );
          })))
