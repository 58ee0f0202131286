-- ===== src/LockManager/Node/Commits.antt =====
-- `append_entry` of a leader: which commands a call that succeeds has applied.
use sinkronisasi_dan_distrib.Base.{
  ℕ, zero, suc, ◌+◌, ◌-◌, ◌≤◌, String, ◌≡◌, refl, inl, inr, Bool, true, false, Option, none, some,
  List, [], ◌∷◌, ◌∙◌, ap, subst, leb, arith, Bool-cases, Option-cases, length, take, drop, sym,
}
use sinkronisasi_dan_distrib.Raft.{
  RaftNode, LogEntry, AppendRequest, AppendReply, majority, term_at,
}
use sinkronisasi_dan_distrib.Raft.Leader.{
  append_request, handle_append_reply, majority_index, advance_commit_index, finish_replication,
}
use sinkronisasi_dan_distrib.Raft.Tally.{successes}
use sinkronisasi_dan_distrib.Raft.Commit.{commands, all_applied, apply_committed_lem}
use sinkronisasi_dan_distrib.LockManager.{Command}
use sinkronisasi_dan_distrib.LockManager.Node.{
  DistributedLockManagerNode, Appended, returned, raised, apply_commands, apply_all, replicate_each,
  replicate_log, Network, conclude,
}

-- nothing is applied that is not committed, nor committed that is not in the log
pub record Fits (r : RaftNode Command) : Type 0 where
  pub before : r.last_applied ≤ r.commit_index
  pub within : r.commit_index ≤ length r.log

-- the same log, with as much of it applied, and as much or more committed
pub record Commits (r r' : RaftNode Command) : Type 0 where
  pub same_log : r'.log ≡ r.log
  same_applied : r'.last_applied ≡ r.last_applied
  grown : r.commit_index ≤ r'.commit_index
  pub within : r'.commit_index ≤ length r.log

Commits-trans : {a b c : RaftNode Command} → Commits a b → Commits b c → Commits a c
Commits-trans {a} {b} {c} x y = record {
  same_log = y.same_log ∙ x.same_log;
  same_applied = y.same_applied ∙ x.same_applied;
  grown = omega (arith, x.grown, y.grown);
  within = omega (arith, y.within, ap length x.same_log);
}

Commits-same :
    {a b : RaftNode Command}
    → b.log ≡ a.log
    → b.last_applied ≡ a.last_applied
    → b.commit_index ≡ a.commit_index
    → Fits a
    → Commits a b
Commits-same {a} {b} l p c v = record {
  same_log = l;
  same_applied = p;
  grown = omega arith;
  within = omega (arith, v.within);
}

handle_append_reply-Commits :
    (peer : String) (q : AppendRequest Command) (reply : Option AppendReply) (r : RaftNode Command)
    → Fits r
    → Commits r (handle_append_reply peer q reply r).0
unfolding handle_append_reply
handle_append_reply-Commits peer q none r v = Commits-same refl refl refl v
handle_append_reply-Commits peer q (some a) r v =
    Commits-same (ground arith) (ground arith) (ground arith) v

Commits-Fits : {a b : RaftNode Command} → Fits a → Commits a b → Fits b
Commits-Fits {a} {b} v c = record {
  before = omega (arith, v.before, c.same_applied, c.grown);
  within = omega (arith, c.within, ap length c.same_log);
}

term_at_le : (log : List (LogEntry Command)) (i t : ℕ) → term_at log i ≡ some t → i ≤ length log
unfolding term_at
term_at_le log zero t h = omega arith
term_at_le [] (suc i) t h = cc
term_at_le (x ∷ log) (suc zero) t h = omega arith
term_at_le (x ∷ log) (suc (suc i)) t h = omega (arith, term_at_le log (suc i) t h)

advance-Commits :
    (r r' : RaftNode Command) → Fits r → advance_commit_index r ≡ some r' → Commits r r'
unfolding advance_commit_index
advance-Commits r r' v e = record {
  same_log = ground arith;
  same_applied = ground arith;
  grown = ground arith;
  within = elim (Option-cases (majority_index r)) [
    | inl missing ↦ absurd (ground arith)
    | inr (i, found) ↦ elim (Option-cases (term_at r.log i)) [
      | inl none_at ↦ ground (arith, v.within)
      | inr (t, at) ↦ ground (arith, v.within, term_at_le r.log i t at)
    ]
  ];
}

-- no other task changes the node while a call waits
abbrev pub Quiet : Network → Type 0
Quiet net = (k : ℕ) (n : DistributedLockManagerNode) → net.others k n ≡ n

-- only the Raft part of the node has changed, and that as `Commits` says
abbrev Moves : DistributedLockManagerNode → DistributedLockManagerNode → Type 0
Moves n n' = (r : RaftNode Command) × (n' ≡ record n { raft = r }) × Commits n.raft r

module _ (net : Network) (quiet : Quiet net) where
  replicate_each-Moves :
      (start : RaftNode Command) (ps : List String) (n : DistributedLockManagerNode)
      → Fits n.raft
      → Moves n (replicate_each net start ps n).0
  unfolding replicate_each
  replicate_each-Moves start [] n v = (n.raft, quiet 0 n, Commits-same refl refl refl v)
  replicate_each-Moves start (p ∷ ps) n v =
      elim (Option-cases (net.send p (append_request p start))) [
        | inl e ↦
            rw (e, replicate_each, quiet (suc (length ps)) n) (replicate_each-Moves start ps n v)
        | inr (reply, e) ↦
            let r = (handle_append_reply p (append_request p start) reply n.raft).0 in
            let first = handle_append_reply-Commits p (append_request p start) reply n.raft v in
            let (r', same, then_) =
              replicate_each-Moves start ps (record n { raft = r }) (Commits-Fits v first) in
            rw (e, replicate_each, quiet (suc (length ps)) n) (r', same, Commits-trans first then_)
      ]

finish_replication-Commits :
    (rs : List (Option Bool)) (r r' : RaftNode Command) (b : Bool)
    → Fits r
    → finish_replication rs r ≡ some (r', b)
    → Commits r r'
unfolding finish_replication
finish_replication-Commits rs r r' b v e = elim (Bool-cases (leb (majority r) (successes rs))) [
  | inl most ↦ elim (Option-cases (advance_commit_index r)) [
    | inl failed ↦ absurd (ground arith)
    | inr (m, moved) ↦ subst (Commits r) (ground arith) (advance-Commits r m v moved)
  ]
  | inr few ↦ subst (Commits r) (ground arith) (Commits-same {b = r} refl refl refl v)
]

pub apply_all-Fits :
    (n : DistributedLockManagerNode)
    → Fits n.raft
    → apply_all n
      ≡ returned
          (apply_commands
            (commands (
              take
                (n.raft.commit_index - n.raft.last_applied)
                (drop n.raft.last_applied n.raft.log)))
            (record n { raft = all_applied n.raft }))
          true
unfolding apply_all
apply_all-Fits n v = rw (apply_committed_lem n.raft v.before v.within, apply_all) refl

-- `k` is how many commands are applied
pub record Replicated (n : DistributedLockManagerNode) (n' : DistributedLockManagerNode)
    : Type 0 where
  pub raft : RaftNode Command
  pub k : ℕ
  pub after :
      n'
      ≡ apply_commands
          (commands (take k (drop n.raft.last_applied n.raft.log)))
          (record n { raft = raft })
  pub same_log : raft.log ≡ n.raft.log
  pub now_applied : raft.last_applied ≡ n.raft.last_applied + k
  pub now_committed : raft.commit_index ≡ n.raft.last_applied + k
  pub within : n.raft.last_applied + k ≤ length n.raft.log

-- the outcome of `_replicate_log`, for a node that the call finds
abbrev pub LogEnds : DistributedLockManagerNode → Appended → Type 0
LogEnds n (raised n') = (r : RaftNode Command) × (n' ≡ record n { raft = r }) × (r.log ≡ n.raft.log)
LogEnds n (returned n' true) = Replicated n n'
LogEnds n (returned n' false) =
    (r : RaftNode Command) × (n' ≡ record n { raft = r }) × (r.log ≡ n.raft.log)

apply_all-Replicated :
    (n : DistributedLockManagerNode) (r : RaftNode Command)
    → Fits n.raft
    → Commits n.raft r
    → LogEnds n (apply_all (record n { raft = r }))
apply_all-Replicated n r v c =
    let v' = Commits-Fits v c in
    rw (apply_all-Fits (record n { raft = r }) v') (record {
      raft = all_applied r;
      k = r.commit_index - r.last_applied;
      after = rw (c.same_log, c.same_applied) refl;
      same_log = c.same_log;
      now_applied = omega (arith, c.same_applied, v'.before);
      now_committed = omega (arith, c.same_applied, v'.before);
      within = omega (arith, c.same_applied, v'.before, c.within);
    })

conclude-LogEnds :
    (results : List (Option Bool)) (n n' : DistributedLockManagerNode)
    → Fits n.raft
    → Moves n n'
    → LogEnds n (conclude results n')
unfolding conclude
conclude-LogEnds results n n' v (r, same, c) =
    subst (λ k. LogEnds n (conclude results k)) (sym same)
      (elim (Option-cases (finish_replication results r)) [
        | inl failed ↦ rw (failed, conclude) (r, refl, c.same_log)
        | inr ((r', b), done) ↦
            let c' =
              Commits-trans c (finish_replication-Commits results r r' b (Commits-Fits v c) done) in
            elim (Bool-cases b) [
              | inl yes_b ↦ rw (done, conclude, yes_b) (apply_all-Replicated n r' v c')
              | inr no_b ↦ rw (done, conclude, no_b) (r', refl, c'.same_log)
            ]
      ])

module _ (net : Network) (quiet : Quiet net) where
  pub replicate_log-LogEnds :
      (n : DistributedLockManagerNode) → Fits n.raft → LogEnds n (replicate_log net n)
  unfolding replicate_log
  replicate_log-LogEnds n v =
      rw (quiet (suc (length n.raft.peers)) n, replicate_log)
        (conclude-LogEnds _ n _ v
          (replicate_each-Moves net quiet n.raft (net.arrivals n.raft.peers) n v))
