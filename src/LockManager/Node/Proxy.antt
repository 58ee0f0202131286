-- ===== src/LockManager/Node/Proxy.antt =====
-- `_proxy_to_leader`: when a node answers that it knows no leader, and what it passes on.
use sinkronisasi_dan_distrib.Base.{
  false, truthy, ℕ, zero, suc, ◌+◌, ◌≤◌, ◌<◌, ℕ_discrete, String, ◌≡◌, refl, inl, inr, Option, none,
  some, ◌∙◌, sym, ap, arith, ◌⊎◌, Option-cases,
}
use sinkronisasi_dan_distrib.MessageBus.{ok, Reply, replied, failed, partitioned, unknown_peer}
use sinkronisasi_dan_distrib.LockManager.Node.Forward.{
  Response, leader_unknown, leader_unreachable, proxied, poll_leader, find_leader, forwarded,
  send_again, proxy_to_leader,
}

-- no leader is known at any of `rounds` reads from `i` on
pub NoneFrom : (ℕ → Option String) → ℕ → ℕ → Type 0
NoneFrom seen i rounds = (j : ℕ) → i ≤ j → j < i + rounds → truthy (seen j) ≡ none

poll_leader-all :
    (seen : ℕ → Option String) (rounds i : ℕ)
    → poll_leader seen rounds i ≡ none
    → NoneFrom seen i rounds
unfolding poll_leader NoneFrom
poll_leader-all seen zero i h = λ j a b. absurd (omega arith)
poll_leader-all seen (suc rounds) i h = elim (Option-cases (truthy (seen i))) [
  | inl missing ↦ λ j a b. elim (ℕ_discrete i j) [
    | yes same ↦ ap (λ k. truthy (seen k)) (sym same) ∙ missing
    | no other ↦
        poll_leader-all seen rounds (i + 1) (ground arith) j (omega (arith, other)) (omega arith)
  ]
  | inr (leader, found) ↦ absurd (ground arith)
]

-- the first read from `i` on that shows a leader
pub FirstFrom : (ℕ → Option String) → ℕ → ℕ → String → Type 0
FirstFrom seen i rounds leader =
    (j : ℕ) × (i ≤ j)
    × (j < i + rounds)
    × (truthy (seen j) ≡ some leader)
    × ((k : ℕ) → i ≤ k → k < j → truthy (seen k) ≡ none)

FirstFrom-later :
    (seen : ℕ → Option String) (rounds i : ℕ) (leader : String)
    → truthy (seen i) ≡ none
    → FirstFrom seen (i + 1) rounds leader
    → FirstFrom seen i (suc rounds) leader
unfolding FirstFrom
FirstFrom-later seen rounds i leader missing (j, after, before, found, none_yet) = (
  j,
  omega arith,
  omega arith,
  found,
  λ k a b. elim (ℕ_discrete i k) [
    | yes same ↦ ap (λ m. truthy (seen m)) (sym same) ∙ missing
    | no other ↦ none_yet k (omega (arith, other)) b
  ],
)

poll_leader-some :
    (seen : ℕ → Option String) (rounds i : ℕ) (leader : String)
    → poll_leader seen rounds i ≡ some leader
    → FirstFrom seen i rounds leader
unfolding poll_leader FirstFrom
poll_leader-some seen zero i leader h = cc
poll_leader-some seen (suc rounds) i leader h = elim (Option-cases (truthy (seen i))) [
  | inl missing ↦
      FirstFrom-later seen rounds i leader missing
        (poll_leader-some seen rounds (i + 1) leader (ground arith))
  | inr (other, found) ↦ (i, omega arith, omega arith, ground arith, λ k a b. absurd (omega arith))
]

find_leader-none : (seen : ℕ → Option String) → find_leader seen ≡ none → NoneFrom seen 0 11
unfolding find_leader NoneFrom
find_leader-none seen h = elim (Option-cases (truthy (seen 0))) [
  | inl missing ↦ all_reads missing (ground arith)
  | inr (leader, found) ↦ absurd (ground arith)
]
  where
    all_reads :
        truthy (seen 0) ≡ none
        → poll_leader seen 10 1 ≡ none
        → (j : ℕ) → 0 ≤ j
        → j < 11
        → truthy (seen j) ≡ none
    all_reads missing h zero a b = missing
    all_reads missing h (suc j) a b =
        poll_leader-all seen 10 1 h (suc j) (omega arith) (omega arith)

find_leader-some :
    (seen : ℕ → Option String) (leader : String)
    → find_leader seen ≡ some leader
    → FirstFrom seen 0 11 leader
unfolding find_leader
find_leader-some seen leader h = elim (Option-cases (truthy (seen 0))) [
  | inl missing ↦
      FirstFrom-later seen 10 0 leader missing (poll_leader-some seen 10 1 leader (ground arith))
  | inr (other, found) ↦
      unfold FirstFrom in (0, omega arith, omega arith, ground arith, λ k a b. absurd (omega arith))
]

-- an answer of the bus below 400, as the node passes it on
pub Passes : {D : Type 0} → Reply D → Response D → Type 0
Passes {D} a r =
    (status : ℕ) × (body : D) × (a ≡ replied status body)
    × (status < 400)
    × (r ≡ proxied status body)

module _ {D : Type 0} where
  forwarded-Passes : (a : Reply D) (r : Response D) → forwarded a ≡ some r → Passes a r
  unfolding forwarded Passes
  forwarded-Passes (replied status body) r h = (status, body, refl, ground arith, ground arith)
  forwarded-Passes failed r h = cc
  forwarded-Passes partitioned r h = cc
  forwarded-Passes unknown_peer r h = cc

  forwarded-fails : (a : Reply D) → forwarded a ≡ none → ok a ≡ false
  unfolding forwarded ok
  forwarded-fails (replied status body) h = ground arith
  forwarded-fails failed h = refl
  forwarded-fails partitioned h = refl
  forwarded-fails unknown_peer h = refl

  module _ (seen : ℕ → Option String) (forward : ℕ → String → Reply D) where
    -- the second send, to the leader that is read before it
    pub SecondEnds : Response D → Type 0
    SecondEnds r =
        ((truthy (seen 11) ≡ none) × (r ≡ leader_unreachable))
        ⊎ ((leader : String) × (truthy (seen 11) ≡ some leader)
            × (Passes (forward 1 leader) r
                ⊎ ((ok (forward 1 leader) ≡ false) × (r ≡ leader_unreachable))))

    -- How `_proxy_to_leader` ends: no leader at any of the eleven reads; or the first leader that was
    -- read, with its answer if it is ok, and otherwise with what the second send gives.
    pub ProxyEnds : Response D → Type 0
    ProxyEnds r =
        (NoneFrom seen 0 11 × (r ≡ leader_unknown))
        ⊎ ((leader : String) × FirstFrom seen 0 11 leader
            × (Passes (forward 0 leader) r ⊎ ((ok (forward 0 leader) ≡ false) × SecondEnds r)))

    send_again-SecondEnds : SecondEnds (send_again seen forward)
    unfolding send_again SecondEnds
    send_again-SecondEnds = elim (Option-cases (truthy (seen 11))) [
      | inl missing ↦ rw (missing, send_again) (inl (refl, refl))
      | inr (leader, found) ↦ elim (Option-cases (forwarded (forward 1 leader))) [
        | inl lost ↦
            rw (found, send_again, lost)
              (inr (leader, refl, inr (forwarded-fails (forward 1 leader) lost, refl)))
        | inr (r, passed) ↦
            rw (found, send_again, passed)
              (inr (leader, refl, inl (forwarded-Passes (forward 1 leader) r passed)))
      ]
    ]

    -- `_proxy_to_leader` answers "leader_unknown" if none of its eleven reads shows a leader. If one
    -- does, it passes on an answer below 400 of the first leader that was read; where that one fails,
    -- an answer below 400 of the leader that is read then; and it answers "leader_unreachable" where
    -- both fail or no leader is read the second time.
    pub proxy_to_leader-ProxyEnds : ProxyEnds (proxy_to_leader seen forward)
    unfolding proxy_to_leader ProxyEnds
    proxy_to_leader-ProxyEnds = elim (Option-cases (find_leader seen)) [
      | inl missing ↦ rw (missing, proxy_to_leader) (inl (find_leader-none seen missing, refl))
      | inr (leader, found) ↦ elim (Option-cases (forwarded (forward 0 leader))) [
        | inl lost ↦
            rw (found, proxy_to_leader, lost)
              (inr (
                leader,
                find_leader-some seen leader found,
                inr (forwarded-fails (forward 0 leader) lost, send_again-SecondEnds),
              ))
        | inr (r, passed) ↦
            rw (found, proxy_to_leader, passed)
              (inr (
                leader,
                find_leader-some seen leader found,
                inl (forwarded-Passes (forward 0 leader) r passed),
              ))
      ]
    ]
