-- ===== src/ModelManager/Ownership.antt =====
-- Who owns the open runtime: the invariant of the manager, its transition and the submissions.
use ex_qserve.Base.{
  sym, Option-cases, inl, inr, ℕ, zero, suc, ◌≡◌, Bool, true, false, Option, none, some, List, [],
  ◌∷◌, nat_eq, length, arith, ◌&&◌, ◌||◌,
}
use ex_qserve.ModelManager.{
  ActiveModelBundle, ModelManagerState, ready, loading, switching, unloading, unloaded, error,
  closed, Goal, to_switch, to_unload, to_close, Phase, idle, building, closing, draining, tearing,
  acquire_from, release_count,
}
use ex_qserve.ModelManager.World.{World, leased_world, released_world, take_at}

abbrev pub has : ℕ → List ℕ → Bool
has r [] = false
has r (x ∷ xs) = nat_eq x r || has r xs

-- Each lease is on a runtime of the list.
abbrev pub within : List ℕ → List ℕ → Bool
within [] runtimes = true
within (l ∷ ls) runtimes = has l runtimes && within ls runtimes

-- The states in which no transition runs.
abbrev pub is_rest : ModelManagerState → Option ActiveModelBundle → Bool
is_rest ready (some b) = true
is_rest unloaded none = true
is_rest error b = true
is_rest closed b = true
is_rest _ _ = false

abbrev pub is_building : ModelManagerState → Option ActiveModelBundle → Bool
is_building loading none = true
is_building switching none = true
is_building _ _ = false

-- The state and the bundle while a bundle is closed.
abbrev pub IsClosing :
    Goal → ActiveModelBundle → ModelManagerState → Option ActiveModelBundle → Type 0
IsClosing (to_switch id) b s o = (s ≡ switching) × (o ≡ some b)
IsClosing to_unload b s o = (s ≡ unloading) × (o ≡ some b)
IsClosing to_close b s o = (s ≡ closed) × (o ≡ none)

abbrev pub runtime_of : Option ActiveModelBundle → List ℕ
runtime_of none = []
runtime_of (some b) = b.runtime ∷ []

-- What holds in a phase of the manager's state and bundle, the open runtimes and the leases.
abbrev pub IsPhase : Phase → ModelManagerState → Option ActiveModelBundle → List ℕ → List ℕ → Type 0
IsPhase idle s o runtimes leases = (is_rest s o ≡ true) × (runtimes ≡ runtime_of o)
IsPhase (building id) s o runtimes leases = (is_building s o ≡ true) × (runtimes ≡ [])
IsPhase (closing g b) s o runtimes leases = IsClosing g b s o × (runtimes ≡ b.runtime ∷ [])
IsPhase (draining g b e) s o runtimes leases = IsClosing g b s o × (runtimes ≡ b.runtime ∷ [])
IsPhase (tearing g b e) s o runtimes leases =
    IsClosing g b s o × (runtimes ≡ b.runtime ∷ []) × (leases ≡ [])

pub record IsOwned (w : World) : Type 0 where
  pub phased : IsPhase w.phase w.manager.state w.manager.bundle w.runtimes w.leases
  pub counted : w.manager.active_submissions ≡ length w.leases
  pub quiesced : w.manager.submissions_quiesced ≡ nat_eq w.manager.active_submissions 0
  pub within_open : within w.leases w.runtimes ≡ true

has_self : (r : ℕ) (rs : List ℕ) → has r (r ∷ rs) ≡ true
has_self r rs = ground arith

within-take_at :
    (i : ℕ) (ls ks runtimes : List ℕ)
    → take_at i ls ≡ some ks
    → within ls runtimes ≡ true
    → (within ks runtimes ≡ true) × (length ls ≡ suc (length ks))
within-take_at i [] ks runtimes e h = ground arith
within-take_at zero (l ∷ ls) ks runtimes e h = ground arith
within-take_at (suc i) (l ∷ ls) ks runtimes e h = elim (Option-cases (take_at i ls)) [
  | inl f ↦ ground arith
  | inr (ms, f) ↦ ground (arith, within-take_at i ls ms runtimes f)
]

-- A lease that ends changes no phase: none is left while the runtime is closed.
taken-IsPhase :
    (i : ℕ) (p : Phase) (s : ModelManagerState) (o : Option ActiveModelBundle)
    (runtimes ls ks : List ℕ)
    → take_at i ls ≡ some ks
    → IsPhase p s o runtimes ls
    → IsPhase p s o runtimes ks
taken-IsPhase i idle s o rs ls ks e h = h
taken-IsPhase i (building id) s o rs ls ks e h = h
taken-IsPhase i (closing g b) s o rs ls ks e h = h
taken-IsPhase i (draining g b f) s o rs ls ks e h = h
taken-IsPhase i (tearing g b f) s o rs [] ks e h = (h.0, h.1, ground arith)
taken-IsPhase i (tearing g b f) s o rs (l ∷ ls) ks e h = ground (arith, h.2)

-- A ready manager runs no transition, and its bundle's runtime is the open one.
ready-IsPhase :
    (p : Phase) (b : ActiveModelBundle) (runtimes leases more : List ℕ)
    → IsPhase p ready (some b) runtimes leases
    → IsPhase p ready (some b) runtimes more × (runtimes ≡ b.runtime ∷ [])
ready-IsPhase idle b rs ls ms h = (h, h.1)
ready-IsPhase (building id) b rs ls ms h = ground arith
ready-IsPhase (closing (to_switch id) c) b rs ls ms h = ground arith
ready-IsPhase (closing to_unload c) b rs ls ms h = ground arith
ready-IsPhase (closing to_close c) b rs ls ms h = ground arith
ready-IsPhase (draining (to_switch id) c e) b rs ls ms h = ground arith
ready-IsPhase (draining to_unload c e) b rs ls ms h = ground arith
ready-IsPhase (draining to_close c e) b rs ls ms h = ground arith
ready-IsPhase (tearing (to_switch id) c e) b rs ls ms h = ground arith
ready-IsPhase (tearing to_unload c e) b rs ls ms h = ground arith
ready-IsPhase (tearing to_close c e) b rs ls ms h = ground arith

pub acquire-IsOwned :
    (s : ModelManagerState) (o : Option ActiveModelBundle) (w : World)
    → w.manager.state ≡ s
    → w.manager.bundle ≡ o
    → IsOwned w
    → IsOwned (leased_world w (acquire_from s o w.manager))
unfolding acquire_from leased_world
acquire-IsOwned ready (some b) w es eo h =
    let q =
      ready-IsPhase w.phase b w.runtimes w.leases (b.runtime ∷ w.leases)
        (rw (sym es, sym eo) h.phased) in
    record {
      phased = rw (es, eo) q.0;
      counted = omega (arith, h.counted);
      quiesced = ground (arith, h.quiesced);
      within_open = rw (q.1) (ground (arith, h.within_open));
    }
acquire-IsOwned ready none w es eo h = h
acquire-IsOwned loading o w es eo h = h
acquire-IsOwned switching o w es eo h = h
acquire-IsOwned unloading o w es eo h = h
acquire-IsOwned unloaded o w es eo h = h
acquire-IsOwned error o w es eo h = h
acquire-IsOwned closed o w es eo h = h

pub release-IsOwned :
    (i n : ℕ) (o : Option (List ℕ)) (w : World)
    → w.manager.active_submissions ≡ n
    → take_at i w.leases ≡ o
    → IsOwned w
    → IsOwned (released_world o w (release_count n w.manager))
unfolding release_count released_world
release-IsOwned i n none w en e h = h
release-IsOwned i zero (some ls) w en e h = h
release-IsOwned i (suc n) (some ls) w en e h =
    let q = within-take_at i w.leases ls w.runtimes e h.within_open in
    record {
      phased =
          taken-IsPhase i w.phase w.manager.state w.manager.bundle w.runtimes w.leases ls e
            h.phased;
      counted = omega (arith, h.counted, q.1);
      quiesced = ground (arith, h.quiesced);
      within_open = q.0;
    }
