-- ===== src/Raft/Roles.antt =====
-- Which steps of a node make it a candidate or a leader: only an election does.
use sinkronisasi_dan_distrib.Base.{
  ℕ, zero, suc, String, ◌≡◌, refl, ◌∙◌, sym, inl, inr, Option, none, some, List, [], ◌∷◌, arith,
  leb, Bool-cases, Option-cases, get_elem?, subst, if◌then◌else◌,
}
use sinkronisasi_dan_distrib.Raft.{
  RaftNode, candidate, leader, VoteRequest, VoteReply, AppendRequest, handle_request_vote,
  handle_append_entries, follow, commit_to, majority,
}
use sinkronisasi_dan_distrib.Raft.Tally.{votes}
use sinkronisasi_dan_distrib.Raft.Leader.{
  Applied, applied, index_error, and_then, apply_next, apply_rounds, apply_committed, append_local,
  commit_own, handle_append_reply, advance_commit_index, reset_peers, finish_election,
  become_leader,
}
use sinkronisasi_dan_distrib.Raft.Step.{
  Step, on_request_vote, on_append_entries, on_timeout, on_votes, on_command, on_append_reply,
  on_advance, on_commit, on_apply, on_apply_fault, node_of,
}

-- A candidate or a leader was one before, in the same term.
pub record Calm {C : Type 0} (n n' : RaftNode C) : Type 0 where
  pub candidates : n'.state ≡ candidate → (n.state ≡ candidate) × (n'.current_term ≡ n.current_term)
  pub leaders : n'.state ≡ leader → (n.state ≡ leader) × (n'.current_term ≡ n.current_term)

module _ {C : Type 0} where
  Calm-of_eq :
      {n n' : RaftNode C} → n'.state ≡ n.state → n'.current_term ≡ n.current_term → Calm n n'
  Calm-of_eq e t = record { candidates = λ h. (sym e ∙ h, t); leaders = λ h. (sym e ∙ h, t) }

  pub handle_request_vote-Calm :
      (now : ℕ) (q : VoteRequest) (n : RaftNode C) → Calm n (handle_request_vote now q n).0
  unfolding handle_request_vote
  handle_request_vote-Calm now q n = record {
    candidates = λ h. (ground arith, ground arith);
    leaders = λ h. (ground arith, ground arith);
  }

  handle_append_entries-Calm :
      (now : ℕ) (q : AppendRequest C) (n : RaftNode C) → Calm n (handle_append_entries now q n).0
  unfolding handle_append_entries follow commit_to
  handle_append_entries-Calm now q n = record {
    candidates = λ h. (ground arith, ground arith);
    leaders = λ h. (ground arith, ground arith);
  }

  -- the state and the term are as before
  record SameRole (n n' : RaftNode C) : Type 0 where
    state : n'.state ≡ n.state
    term : n'.current_term ≡ n.current_term

  SameRole-trans : {n m k : RaftNode C} → SameRole n m → SameRole m k → SameRole n k
  SameRole-trans a b = record { state = b.state ∙ a.state; term = b.term ∙ a.term }

  node_of-and_then : (c : C) (r : Applied C) → node_of (and_then c r) ≡ node_of r
  node_of-and_then c (applied n cs) = refl
  node_of-and_then c (index_error n cs) = refl

  apply_next-SameRole :
      (rest : RaftNode C → Applied C) (n : RaftNode C)
      → ((m : RaftNode C) → SameRole m (node_of (rest m)))
      → SameRole n (node_of (apply_next rest n))
  unfolding apply_next
  apply_next-SameRole rest n h = elim (Option-cases (get_elem? n.log n.last_applied)) [
    | inl e ↦ rw (e, apply_next) (record { state = refl; term = refl })
    | inr (x, e) ↦
        rw (e, apply_next, node_of-and_then)
          (SameRole-trans (record { state = refl; term = refl }) (h _))
  ]

  apply_rounds-SameRole : (f : ℕ) (n : RaftNode C) → SameRole n (node_of (apply_rounds f n))
  unfolding apply_rounds
  apply_rounds-SameRole zero n = record { state = refl; term = refl }
  apply_rounds-SameRole (suc f) n = elim (Bool-cases (leb n.commit_index n.last_applied)) [
    | inl e ↦ rw (e, apply_rounds) (record { state = refl; term = refl })
    | inr e ↦
        rw (e, apply_rounds) (apply_next-SameRole (apply_rounds f) n (apply_rounds-SameRole f))
  ]

  apply_committed-Calm :
      (n : RaftNode C) (r : Applied C) → apply_committed n ≡ r → Calm n (node_of r)
  unfolding apply_committed
  apply_committed-Calm n r e =
      let s = subst (λ x. SameRole n (node_of x)) e (apply_rounds-SameRole _ n) in
      Calm-of_eq s.state s.term

  -- every step but a vote, the start of an election and its end
  abbrev pub IsOther : {n n' : RaftNode C} → Step n n' → Type 0
  IsOther (on_request_vote now q e) = ⊥
  IsOther (on_timeout now e) = ⊥
  IsOther (on_votes rs e) = ⊥
  IsOther (on_append_entries now q e) = Unit
  IsOther (on_command c e) = Unit
  IsOther (on_append_reply peer q r e) = Unit
  IsOther (on_advance e) = Unit
  IsOther (on_commit i e) = Unit
  IsOther (on_apply cs e) = Unit
  IsOther (on_apply_fault cs e) = Unit

  pub Step-Calm : {n n' : RaftNode C} (s : Step n n') → IsOther s → Calm n n'
  unfolding append_local handle_append_reply commit_own advance_commit_index
  Step-Calm (on_request_vote now q e) o = absurd o
  Step-Calm (on_timeout now e) o = absurd o
  Step-Calm (on_votes rs e) o = absurd o
  Step-Calm {n} (on_append_entries now q e) o =
      subst (Calm n) (sym e) (handle_append_entries-Calm now q n)
  Step-Calm {n} (on_command c e) o = Calm-of_eq (ground arith) (ground arith)
  Step-Calm {n} (on_append_reply peer q none e) o = Calm-of_eq (ground arith) (ground arith)
  Step-Calm {n} (on_append_reply peer q (some r) e) o = Calm-of_eq (ground arith) (ground arith)
  Step-Calm {n} (on_advance e) o = Calm-of_eq (ground arith) (ground arith)
  Step-Calm {n} (on_commit i e) o = Calm-of_eq (ground arith) (ground arith)
  Step-Calm {n} (on_apply cs e) o = apply_committed-Calm n _ e
  Step-Calm {n} (on_apply_fault cs e) o = apply_committed-Calm n _ e

  reset_peers-SameRole :
      (ps : List String) (len : ℕ) (n : RaftNode C) → SameRole n (reset_peers ps len n)
  unfolding reset_peers
  reset_peers-SameRole [] len n = record { state = refl; term = refl }
  reset_peers-SameRole (p ∷ ps) len n =
      SameRole-trans (record { state = refl; term = refl }) (reset_peers-SameRole ps len _)

  -- the end of an election that is not won changes nothing, and one that is won makes a leader
  pub finish_election-cases :
      (rs : List (Option VoteReply)) (n : RaftNode C)
      → ((finish_election rs n).current_term ≡ n.current_term)
        × ((finish_election rs n).state ≡ (if leb (majority n) (votes rs) then leader else n.state))
  unfolding finish_election become_leader
  finish_election-cases rs n = elim (Bool-cases (leb (majority n) (votes rs))) [
    | inl e ↦
        let r =
          reset_peers-SameRole n.peers _
            (record n { state = leader; leader_id = some n.node_id }) in
        rw e (r.term, r.state)
    | inr e ↦ rw e (refl, refl)
  ]
