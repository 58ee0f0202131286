-- ===== src/LockManager/Node/Owns.antt =====
-- The futures of the requests: which request's a future is, over new requests and applied commands.
use sinkronisasi_dan_distrib.Base.{
  truthy, ℕ, zero, suc, ◌<◌, String, ◌≡◌, refl, inl, inr, ◌⊎◌, Option, none, some, List, [], ◌∷◌,
  ◌++◌, ◌∙◌, sym, ap, subst, lookup, lookup-insert, lookup-erase, dec_string, arith, Option-cases,
  length, length-append, get_elem?,
}
use sinkronisasi_dan_distrib.LockManager.{Command, Result, apply}
use sinkronisasi_dan_distrib.LockManager.Node.{
  Future, unset, cancelled, set, DistributedLockManagerNode, request_id_of, set_result, resolve,
  apply_command, apply_commands,
}
use sinkronisasi_dan_distrib.LockManager.Node.Applies.{truthy-some}
use sinkronisasi_dan_distrib.LockManager.Node.Acquire.{Created}
use sinkronisasi_dan_distrib.LockManager.Node.Handlers.{create_future, result_of}

-- The future `f` was created, is pending under no id but `id`, and has no result but of that id.
abbrev pub Owns : String → ℕ → DistributedLockManagerNode → Type 0
Owns id f n =
    (f < length n.futures)
    × ((j : String) → lookup j n.pending_futures ≡ some f → j ≡ id)
    × ((r : Result) → result_of (get_elem? n.futures f) ≡ some r → request_id_of r ≡ some id)

-- a change of the node after which every future is still its request's
abbrev pub KeepsOwn : (DistributedLockManagerNode → DistributedLockManagerNode) → Type 0
KeepsOwn change =
    (id : String) (f : ℕ) (n : DistributedLockManagerNode) → Owns id f n → Owns id f (change n)

appended_elem :
    (fs : List Future) (x : Future) (f : ℕ)
    → f < length fs
    → get_elem? (fs ++ x ∷ []) f ≡ get_elem? fs f
appended_elem [] x f h = absurd (omega (arith, h))
appended_elem (y ∷ fs) x zero h = refl
appended_elem (y ∷ fs) x (suc f) h = appended_elem fs x f (omega (arith, h))

last_unset : (fs : List Future) → result_of (get_elem? (fs ++ unset ∷ []) (length fs)) ≡ none
last_unset [] = refl
last_unset (x ∷ fs) = last_unset fs

-- other requests may create futures, also for the same id
pub create_future-KeepsOwn : (id : String) → KeepsOwn (create_future id)
unfolding create_future
create_future-KeepsOwn new id f n (made, alone, mine) = (
  omega (arith, made, length-append n.futures (unset ∷ [])),
  λ j h. ground (arith, lookup-insert new j (length n.futures) n.pending_futures, alone j, made),
  λ r h. mine r (sym (ap result_of (appended_elem n.futures unset f made)) ∙ h),
)

pub create_future-Owns :
    (id : String) (n : DistributedLockManagerNode)
    → Created n
    → Owns id (length n.futures) (create_future id n)
unfolding create_future Created
create_future-Owns id n v = (
  omega (arith, length-append n.futures (unset ∷ [])),
  λ j h. elim (dec_string id j) [
    | yes same ↦ sym same
    | no other ↦
        let old : lookup j n.pending_futures ≡ some (length n.futures) =
          ground (arith, lookup-insert id j (length n.futures) n.pending_futures) in
        absurd (omega (arith, v j (length n.futures) old))
  ],
  λ r h. absurd (ground (arith, last_unset n.futures)),
)

set_result-cases :
    (r s : Result) (g f : ℕ) (fs : List Future)
    → result_of (get_elem? (set_result r g fs) f) ≡ some s
    → (result_of (get_elem? fs f) ≡ some s) ⊎ ((g ≡ f) × (r ≡ s))
unfolding set_result
set_result-cases r s g f [] h = inl h
set_result-cases r s zero zero (unset ∷ fs) h = inr (refl, ground arith)
set_result-cases r s zero (suc f) (unset ∷ fs) h = inl h
set_result-cases r s zero f (cancelled ∷ fs) h = inl h
set_result-cases r s zero f (set x ∷ fs) h = inl h
set_result-cases r s (suc g) zero (x ∷ fs) h = inl h
set_result-cases r s (suc g) (suc f) (x ∷ fs) h = elim (set_result-cases r s g f fs h) [
  | inl old ↦ inl old
  | inr (same, result) ↦ inr (ap suc same, result)
]

length-set_result : (r : Result) (g : ℕ) (fs : List Future) → length (set_result r g fs) ≡ length fs
unfolding set_result
length-set_result r g [] = refl
length-set_result r zero (unset ∷ fs) = refl
length-set_result r zero (cancelled ∷ fs) = refl
length-set_result r zero (set x ∷ fs) = refl
length-set_result r (suc g) (x ∷ fs) = omega (arith, length-set_result r g fs)

resolve-Owns :
    (id : String) (f : ℕ) (o : Option String) (r : Result) (n : DistributedLockManagerNode)
    → ((j : String) → o ≡ some j → request_id_of r ≡ some j)
    → Owns id f n
    → Owns id f (resolve o r n)
unfolding resolve
resolve-Owns id f none r n named v = v
resolve-Owns id f (some j) r n named (made, alone, mine) =
    elim (Option-cases (lookup j n.pending_futures)) [
      | inl e ↦ rw (e, resolve) (made, alone, mine)
      | inr (g, e) ↦
          rw (e, resolve)
            (
              omega (arith, made, length-set_result r g n.futures),
              λ k h. alone k (ground (arith, lookup-erase j k n.pending_futures)),
              λ s h. elim (set_result-cases r s g f n.futures h) [
                | inl old ↦ mine s old
                | inr (same, is_r) ↦
                    subst (λ x. request_id_of x ≡ some id) is_r
                      (named j refl ∙ ap some (alone j (e ∙ ap some same)))
              ],
            )
    ]

pub apply_commands-Owns :
    (id : String) (f : ℕ) (cs : List Command) (n : DistributedLockManagerNode)
    → Owns id f n
    → Owns id f (apply_commands cs n)
unfolding apply_commands apply_command
apply_commands-Owns id f [] n v = v
apply_commands-Owns id f (c ∷ cs) n v =
    let result = (apply n.lock_state c).1 in
    apply_commands-Owns id f cs (apply_command c n) (
      resolve-Owns id f (truthy (request_id_of result)) result
        (record n { lock_state = (apply n.lock_state c).0 })
        (λ j h. truthy-some (request_id_of result) j h) v)
