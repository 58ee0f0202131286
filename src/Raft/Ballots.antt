-- ===== src/Raft/Ballots.antt =====
-- Each step of a cluster keeps the ballots sound.
use sinkronisasi_dan_distrib.Base.{
  ℕ, ◌+◌, ◌≤◌, String, ◌≡◌, refl, ◌∙◌, sym, ap, subst, inl, inr, ◌⊎◌, Bool, true, Option, some,
  List, ◌∷◌, arith, leb, Bool-cases, if◌then◌else◌, member, set_discard, length, IsDistinct,
}
use sinkronisasi_dan_distrib.Raft.{
  RaftNode, candidate, leader, VoteRequest, VoteReply, handle_request_vote, majority,
}
use sinkronisasi_dan_distrib.Raft.Tally.{votes}
use sinkronisasi_dan_distrib.Raft.Leader.{start_election, finish_election}
use sinkronisasi_dan_distrib.Raft.Step.{on_request_vote, on_timeout, on_votes, Keeps, Step-Keeps}
use sinkronisasi_dan_distrib.Raft.Roles.{Calm, handle_request_vote-Calm, finish_election-cases}
use sinkronisasi_dan_distrib.Raft.Cluster.{Ballot, was_cast, Cluster, replies}
use sinkronisasi_dan_distrib.Raft.Election.{
  count, count_mono, count-others, votes-replies, IsSafe, Moves,
}

cast-cons :
    (b : Ballot) (bs : List Ballot) (v : String) (t : ℕ) (c : String)
    → was_cast bs v t c ≡ true
    → was_cast (b ∷ bs) v t c ≡ true
unfolding was_cast
cast-cons b bs v t c h = ground arith

cast-cons_cases :
    (b : Ballot) (bs : List Ballot) (v : String) (t : ℕ) (c : String)
    → was_cast (b ∷ bs) v t c ≡ true
    → (was_cast bs v t c ≡ true) ⊎ ((v ≡ b.voter) × (t ≡ b.term) × (c ≡ b.choice))
unfolding was_cast
cast-cons_cases b bs v t c h = elim (Bool-cases (was_cast bs v t c)) [
  | inl old ↦ inl old
  | inr new ↦ inr (ground arith, ground arith, ground arith)
]

cast-head : (b : Ballot) (bs : List Ballot) → was_cast (b ∷ bs) b.voter b.term b.choice ≡ true
unfolding was_cast
cast-head b bs = ground arith

module _ {C : Type 0} (ms : List String) (s : Cluster C) (safe : IsSafe ms s) where
  -- a step of a node that casts no ballot
  pub still-Moves :
      (a : String) (n : RaftNode C)
      → member a ms ≡ true
      → Keeps (s.node a) n
      → Calm (s.node a) n
      → Moves ms s a n s.ballots
  unfolding majority
  still-Moves a n here k calm = record {
    keeps = k;
    grows = λ v t c h. h;
    fresh = λ v t c h. inl h;
    own = λ h.
        let (was, same) = calm.candidates h in
        ap (λ t. was_cast s.ballots a t a) same ∙ safe.own a here was;
    elected = λ h.
        let (was, same) = calm.leaders h in
        subst (λ t. majority n ≤ count (λ v. was_cast s.ballots v t a) ms) (sym same)
          (omega
            (arith, safe.elected a here was, ap (λ (ps : List String). length ps) k.same_peers));
  }

  pub campaign-Moves :
      (a : String) (now : ℕ)
      → member a ms ≡ true
      → Moves ms s a
          (start_election now (s.node a)).0
          (record { voter = a; term = (s.node a).current_term + 1; choice = a } ∷ s.ballots)
  unfolding start_election
  campaign-Moves a now here =
      let b : Ballot = record { voter = a; term = (s.node a).current_term + 1; choice = a } in
      record {
        keeps = Step-Keeps (on_timeout now refl);
        grows = λ v t c h. cast-cons b s.ballots v t c h;
        fresh = λ v t c h. elim (cast-cons_cases b s.ballots v t c h) [
          | inl old ↦ inl old
          | inr (e, same, choice) ↦ inr (e, same, ap some (safe.ids a here ∙ sym choice))
        ];
        own = λ h. cast-head b s.ballots;
        elected = λ h. cc;
      }

  granted :
      (v : String) (now : ℕ) (q : VoteRequest) (c : String)
      → q.candidate_id ≡ some c
      → (handle_request_vote now q (s.node v)).1.vote_granted ≡ true
      → ((handle_request_vote now q (s.node v)).0.current_term ≡ q.term)
        × ((handle_request_vote now q (s.node v)).0.voted_for ≡ some c)
  unfolding handle_request_vote
  granted v now q c e h = (ground arith, ground arith)

  ballot-Moves :
      (a : String) (n : RaftNode C) (b : Ballot)
      → Moves ms s a n s.ballots
      → b.voter ≡ a
      → n.current_term ≡ b.term
      → n.voted_for ≡ some b.choice
      → Moves ms s a n (b ∷ s.ballots)
  ballot-Moves a n b mv who when whom = record {
    keeps = mv.keeps;
    grows = λ v t c h. cast-cons b s.ballots v t c h;
    fresh = λ v t c h. elim (cast-cons_cases b s.ballots v t c h) [
      | inl old ↦ inl old
      | inr (e, same, choice) ↦ inr (e ∙ who, same ∙ sym when, whom ∙ ap some (sym choice))
    ];
    own = λ h. cast-cons b s.ballots a n.current_term a (mv.own h);
    elected = λ h. omega (
      arith,
      mv.elected h,
      count_mono (λ v. was_cast s.ballots v n.current_term a)
          (λ v. was_cast (b ∷ s.ballots) v n.current_term a) ms
          (λ v. cast-cons b s.ballots v n.current_term a),
    );
  }

  pub vote-Moves :
      (v : String) (now : ℕ) (q : VoteRequest) (c : String)
      → member v ms ≡ true
      → q.candidate_id ≡ some c
      → Moves ms s v (handle_request_vote now q (s.node v)).0 (
          if (handle_request_vote now q (s.node v)).1.vote_granted
          then record { voter = v; term = q.term; choice = c } ∷ s.ballots
          else s.ballots)
  vote-Moves v now q c here e =
      let mv =
        still-Moves v (handle_request_vote now q (s.node v)).0 here
          (Step-Keeps (on_request_vote now q refl)) (handle_request_vote-Calm now q (s.node v)) in
      elim (Bool-cases (handle_request_vote now q (s.node v)).1.vote_granted) [
        | inr no_vote ↦ rw no_vote mv
        | inl yes_vote ↦
            let (when, whom) = granted v now q c e yes_vote in
            rw yes_vote (
              ballot-Moves v (handle_request_vote now q (s.node v)).0
                (record { voter = v; term = q.term; choice = c }) mv refl when whom)
      ]

  pub count_votes-Moves :
      (a : String) (t : ℕ) (grants : String → Bool)
      → IsDistinct ms
      → member a ms ≡ true
      → (s.node a).state ≡ candidate
      → ((p : String) → grants p ≡ true → was_cast s.ballots p (s.node a).current_term a ≡ true)
      → Moves ms s a (finish_election (replies t grants (s.node a).peers) (s.node a)) s.ballots
  unfolding majority
  count_votes-Moves a t grants distinct here cand sound =
      let n = s.node a in
      let rs = replies t grants n.peers in
      let k : Keeps n (finish_election rs n) = Step-Keeps (on_votes rs refl) in
      let (same, role) = finish_election-cases rs n in
      let mine = safe.own a here cand in
      let (c, len) =
        count-others (λ v. was_cast s.ballots v n.current_term a) a ms distinct here mine in
      record {
        keeps = k;
        grows = λ v t' c' h. h;
        fresh = λ v t' c' h. inl h;
        own = λ h. ap (λ x. was_cast s.ballots a x a) same ∙ mine;
        elected = λ h.
            subst (λ x. majority (finish_election rs n) ≤ count (λ v. was_cast s.ballots v x a) ms)
              (sym same)
              (omega (
                arith,
                c,
                won rs n cand (sym role ∙ h),
                votes-replies t grants n.peers,
                ap (λ (ps : List String). count grants ps) (safe.others a here),
                count_mono grants (λ v. was_cast s.ballots v n.current_term a) (set_discard a ms)
                    sound,
                ap (λ (ps : List String). length ps) k.same_peers,
              ));
      }
    where
      won :
          (rs : List (Option VoteReply)) (n : RaftNode C)
          → n.state ≡ candidate
          → (if leb (majority n) (votes rs) then leader else n.state) ≡ leader
          → majority n ≤ votes rs
      won rs n e h = ground arith
