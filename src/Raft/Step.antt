-- ===== src/Raft/Step.antt =====
-- The steps of one `RaftNode`: every handler and every part between two awaits, in any order, as
-- the event loop may run them.
use sinkronisasi_dan_distrib.Base.{
  ℕ, zero, suc, ◌≤◌, String, ◌≡◌, refl, ◌∙◌, sym, inl, inr, Bool, true, false, Option, none, some,
  List, [], ◌∷◌, arith, leb, Bool-cases, Option-cases, get_elem?, subst, if◌then◌else◌,
}
use sinkronisasi_dan_distrib.Raft.{
  RaftNode, VoteRequest, VoteReply, AppendRequest, AppendReply, handle_request_vote,
  handle_append_entries, follow, commit_to,
}
use sinkronisasi_dan_distrib.Raft.Leader.{
  Applied, applied, index_error, and_then, apply_next, apply_rounds, apply_committed, append_local,
  commit_own, handle_append_reply, advance_commit_index, start_election, reset_peers,
  finish_election,
}

pub data Step {C : Type 0} (n n' : RaftNode C) : Type 0 where
  on_request_vote : (now : ℕ) (q : VoteRequest) → n' ≡ (handle_request_vote now q n).0 → Step n n'
  on_append_entries :
      (now : ℕ) (q : AppendRequest C) → n' ≡ (handle_append_entries now q n).0 → Step n n'
  on_timeout : (now : ℕ) → n' ≡ (start_election now n).0 → Step n n'
  on_votes : (rs : List (Option VoteReply)) → n' ≡ finish_election rs n → Step n n'
  on_command : (c : C) → n' ≡ (append_local c n).0 → Step n n'
  on_append_reply :
      (peer : String) (q : AppendRequest C) (r : Option AppendReply)
      → n' ≡ (handle_append_reply peer q r n).0
      → Step n n'
  on_advance : advance_commit_index n ≡ some n' → Step n n'
  on_commit : (i : ℕ) → n' ≡ commit_own i n → Step n n'
  on_apply : (cs : List C) → apply_committed n ≡ applied n' cs → Step n n'
  on_apply_fault : (cs : List C) → apply_committed n ≡ index_error n' cs → Step n n'

pub data Reach {C : Type 0} (n : RaftNode C) : RaftNode C → Type 0 where
  here : Reach n n
  next : {m n' : RaftNode C} → Reach n m → Step m n' → Reach n n'

-- Terms only grow, and within a term a vote is not taken back. The node stays the same node.
pub record Keeps {C : Type 0} (n n' : RaftNode C) : Type 0 where
  pub terms : n.current_term ≤ n'.current_term
  pub vote :
      (a : String) → n'.current_term ≡ n.current_term → n.voted_for ≡ some a → n'.voted_for ≡ some a
  pub same_id : n'.node_id ≡ n.node_id
  pub same_peers : n'.peers ≡ n.peers

module _ {C : Type 0} where
  Keeps-refl : (n : RaftNode C) → Keeps n n
  Keeps-refl n = record {
    terms = omega arith;
    vote = λ a e h. h;
    same_id = refl;
    same_peers = refl;
  }

  Keeps-trans : {n m k : RaftNode C} → Keeps n m → Keeps m k → Keeps n k
  Keeps-trans {n} {m} {k} a b = record {
    terms = omega arith;
    vote = λ c e h. b.vote c (omega arith) (a.vote c (omega arith) h);
    same_id = b.same_id ∙ a.same_id;
    same_peers = b.same_peers ∙ a.same_peers;
  }

  Keeps-of_eq :
      {n n' : RaftNode C}
      → n'.current_term ≡ n.current_term
      → n'.voted_for ≡ n.voted_for
      → n'.node_id ≡ n.node_id
      → n'.peers ≡ n.peers
      → Keeps n n'
  Keeps-of_eq {n} {n'} t v i p = record {
    terms = omega arith;
    vote = λ a e h. v ∙ h;
    same_id = i;
    same_peers = p;
  }

  handle_request_vote-Keeps :
      (now : ℕ) (q : VoteRequest) (n : RaftNode C) → Keeps n (handle_request_vote now q n).0
  unfolding handle_request_vote
  handle_request_vote-Keeps now q n = record {
    terms = ground arith;
    vote = λ a e h. ground arith;
    same_id = ground arith;
    same_peers = ground arith;
  }

  handle_append_entries-Keeps :
      (now : ℕ) (q : AppendRequest C) (n : RaftNode C) → Keeps n (handle_append_entries now q n).0
  unfolding handle_append_entries follow commit_to
  handle_append_entries-Keeps now q n = record {
    terms = ground arith;
    vote = λ a e h. ground arith;
    same_id = ground arith;
    same_peers = ground arith;
  }

  reset_peers-Keeps : (ps : List String) (len : ℕ) (n : RaftNode C) → Keeps n (reset_peers ps len n)
  unfolding reset_peers
  reset_peers-Keeps [] len n = Keeps-refl n
  reset_peers-Keeps (p ∷ ps) len n =
      Keeps-trans (Keeps-of_eq refl refl refl refl) (reset_peers-Keeps ps len _)

  Keeps-if : {n m k : RaftNode C} (b : Bool) → Keeps n m → Keeps n k → Keeps n (if b then m else k)
  Keeps-if true x y = x
  Keeps-if false x y = y

  finish_election-Keeps :
      (rs : List (Option VoteReply)) (n : RaftNode C) → Keeps n (finish_election rs n)
  unfolding finish_election
  finish_election-Keeps rs n =
      Keeps-if _ (Keeps-trans (Keeps-of_eq refl refl refl refl) (reset_peers-Keeps n.peers _ _))
        (Keeps-refl n)

  abbrev pub node_of : Applied C → RaftNode C
  node_of (applied n cs) = n
  node_of (index_error n cs) = n

  node_of-and_then : (c : C) (r : Applied C) → node_of (and_then c r) ≡ node_of r
  node_of-and_then c (applied n cs) = refl
  node_of-and_then c (index_error n cs) = refl

  apply_next-Keeps :
      (rest : RaftNode C → Applied C) (n : RaftNode C)
      → ((m : RaftNode C) → Keeps m (node_of (rest m)))
      → Keeps n (node_of (apply_next rest n))
  unfolding apply_next
  apply_next-Keeps rest n h = elim (Option-cases (get_elem? n.log n.last_applied)) [
    | inl e ↦ rw (e, apply_next) (Keeps-of_eq refl refl refl refl)
    | inr (x, e) ↦
        rw (e, apply_next, node_of-and_then) (Keeps-trans (Keeps-of_eq refl refl refl refl) (h _))
  ]

  apply_rounds-Keeps : (f : ℕ) (n : RaftNode C) → Keeps n (node_of (apply_rounds f n))
  unfolding apply_rounds
  apply_rounds-Keeps zero n = Keeps-refl n
  apply_rounds-Keeps (suc f) n = elim (Bool-cases (leb n.commit_index n.last_applied)) [
    | inl e ↦ rw (e, apply_rounds) (Keeps-refl n)
    | inr e ↦ rw (e, apply_rounds) (apply_next-Keeps (apply_rounds f) n (apply_rounds-Keeps f))
  ]

  advance-Keeps : (n n' : RaftNode C) → advance_commit_index n ≡ some n' → Keeps n n'
  unfolding advance_commit_index
  advance-Keeps n n' e = Keeps-of_eq (ground arith) (ground arith) (ground arith) (ground arith)

  apply_committed-Keeps :
      (n : RaftNode C) (r : Applied C) → apply_committed n ≡ r → Keeps n (node_of r)
  unfolding apply_committed
  apply_committed-Keeps n r e = subst (λ x. Keeps n (node_of x)) e (apply_rounds-Keeps _ n)

  abbrev Keeps_into : {n m m' : RaftNode C} → m' ≡ m → Keeps n m → Keeps n m'
  Keeps_into {n} e k = subst (Keeps n) (sym e) k

  pub Step-Keeps : {n n' : RaftNode C} → Step n n' → Keeps n n'
  unfolding append_local handle_append_reply start_election commit_own
  Step-Keeps {n} (on_request_vote now q e) = Keeps_into e (handle_request_vote-Keeps now q n)
  Step-Keeps {n} (on_append_entries now q e) = Keeps_into e (handle_append_entries-Keeps now q n)
  Step-Keeps (on_timeout now e) = Keeps_into e (record {
    terms = omega arith;
    vote = λ a e h. absurd (omega arith);
    same_id = refl;
    same_peers = refl;
  })
  Step-Keeps {n} (on_votes rs e) = Keeps_into e (finish_election-Keeps rs n)
  Step-Keeps (on_command c e) = Keeps_into e (Keeps-of_eq refl refl refl refl)
  Step-Keeps (on_append_reply peer q none e) = Keeps_into e (Keeps-of_eq refl refl refl refl)
  Step-Keeps {n} (on_append_reply peer q (some r) e) =
      Keeps-of_eq (ground arith) (ground arith) (ground arith) (ground arith)
  Step-Keeps {n} {n'} (on_advance e) = advance-Keeps n n' e
  Step-Keeps (on_commit i e) =
      Keeps_into e (Keeps-if _ (Keeps-of_eq refl refl refl refl) (Keeps-refl _))
  Step-Keeps {n} (on_apply cs e) = apply_committed-Keeps n _ e
  Step-Keeps {n} (on_apply_fault cs e) = apply_committed-Keeps n _ e

  pub Reach-Keeps : {n n' : RaftNode C} → Reach n n' → Keeps n n'
  Reach-Keeps {n} here = Keeps-refl n
  Reach-Keeps (next r s) = Keeps-trans (Reach-Keeps r) (Step-Keeps s)
