-- ===== src/ModelManager/Sections.antt =====
-- The sections of the manager's transitions keep its invariant.
use ex_qserve.Base.{
  ℕ, String, ◌≡◌, refl, Bool, true, false, Option, none, some, List, [], ◌∷◌, arith, if_elim, ◌==◌,
}
use ex_qserve.ModelManager.{
  ActiveModelBundle, ModelManagerState, ready, loading, switching, unloading, unloaded, error,
  closed, Manager, Goal, to_switch, to_unload, to_close, idle, load_from, switch_from, unload_from,
  close_from, bundle_close, after_close, Answer, section, Section, unresolved,
}
use ex_qserve.ModelManager.World.{World, with_section}
use ex_qserve.ModelManager.Ownership.{IsOwned, IsPhase, IsClosing}

-- A section of a transition in a world with these runtimes and leases.
pub record IsSection (m : Manager) (runtimes leases : List ℕ) (s : Section) : Type 0 where
  pub phased : IsPhase s.phase s.manager.state s.manager.bundle runtimes leases
  pub same_count : s.manager.active_submissions ≡ m.active_submissions
  pub same_quiesced : s.manager.submissions_quiesced ≡ m.submissions_quiesced

pub section-IsOwned :
    (w : World) (s : Section)
    → IsOwned w
    → IsSection w.manager w.runtimes w.leases s
    → IsOwned (with_section s w)
section-IsOwned w s h q = record {
  phased = q.phased;
  counted = omega (arith, h.counted, q.same_count);
  quiesced = ground (arith, h.quiesced, q.same_count, q.same_quiesced);
  within_open = h.within_open;
}

module _ (m : Manager) (runtimes leases : List ℕ) where
  abbrev pub IsRest : ModelManagerState → Option ActiveModelBundle → Type 0
  IsRest s o = IsPhase idle s o runtimes leases

  -- The section leaves the manager as it is.
  kept :
      (s : ModelManagerState) (o : Option ActiveModelBundle)
      → m.state ≡ s
      → m.bundle ≡ o
      → IsRest s o
      → (a : Answer) → IsSection m runtimes leases (section m idle a)
  kept s o es eo h a = record { phased = rw (es, eo) h; same_count = refl; same_quiesced = refl }

  pub load_from-IsSection :
      (id : String) (s : ModelManagerState) (o : Option ActiveModelBundle)
      → m.state ≡ s
      → m.bundle ≡ o
      → IsRest s o
      → IsSection m runtimes leases (load_from id s o m)
  unfolding load_from
  load_from-IsSection id error (some b) es eo h = kept error (some b) es eo h _
  load_from-IsSection id error none es eo h = record {
    phased = (refl, h.1);
    same_count = refl;
    same_quiesced = refl;
  }
  load_from-IsSection id unloaded none es eo h = record {
    phased = (refl, h.1);
    same_count = refl;
    same_quiesced = refl;
  }
  load_from-IsSection id unloaded (some b) es eo h = ground (arith, h.0)
  load_from-IsSection id ready o es eo h = kept ready o es eo h _
  load_from-IsSection id loading o es eo h = kept loading o es eo h _
  load_from-IsSection id switching o es eo h = kept switching o es eo h _
  load_from-IsSection id unloading o es eo h = kept unloading o es eo h _
  load_from-IsSection id closed o es eo h = kept closed o es eo h _

  pub switch_from-IsSection :
      (id : String) (s : ModelManagerState) (o : Option ActiveModelBundle)
      → m.state ≡ s
      → m.bundle ≡ o
      → IsRest s o
      → IsSection m runtimes leases (switch_from id s o m)
  unfolding switch_from
  switch_from-IsSection id ready (some b) es eo h =
      if_elim (IsSection m runtimes leases) (b.management_id == id)
        (λ e. kept ready (some b) es eo h _)
        (λ e. record { phased = ((refl, eo), h.1); same_count = refl; same_quiesced = refl })
  switch_from-IsSection id ready none es eo h = kept ready none es eo h _
  switch_from-IsSection id error o es eo h = kept error o es eo h _
  switch_from-IsSection id unloaded o es eo h = kept unloaded o es eo h _
  switch_from-IsSection id loading o es eo h = kept loading o es eo h _
  switch_from-IsSection id switching o es eo h = kept switching o es eo h _
  switch_from-IsSection id unloading o es eo h = kept unloading o es eo h _
  switch_from-IsSection id closed o es eo h = kept closed o es eo h _

  pub unload_from-IsSection :
      (s : ModelManagerState) (o : Option ActiveModelBundle)
      → m.state ≡ s
      → m.bundle ≡ o
      → IsRest s o
      → IsSection m runtimes leases (unload_from s o m)
  unfolding unload_from
  unload_from-IsSection ready (some b) es eo h = record {
    phased = ((refl, eo), h.1);
    same_count = refl;
    same_quiesced = refl;
  }
  unload_from-IsSection ready none es eo h = kept ready none es eo h _
  unload_from-IsSection error o es eo h = kept error o es eo h _
  unload_from-IsSection unloaded o es eo h = kept unloaded o es eo h _
  unload_from-IsSection loading o es eo h = kept loading o es eo h _
  unload_from-IsSection switching o es eo h = kept switching o es eo h _
  unload_from-IsSection unloading o es eo h = kept unloading o es eo h _
  unload_from-IsSection closed o es eo h = kept closed o es eo h _

  pub close_from-IsSection :
      (s : ModelManagerState) (o : Option ActiveModelBundle)
      → m.state ≡ s
      → m.bundle ≡ o
      → IsRest s o
      → IsSection m runtimes leases (close_from s o m)
  unfolding close_from
  close_from-IsSection closed o es eo h = kept closed o es eo h _
  close_from-IsSection ready none es eo h = record {
    phased = (refl, h.1);
    same_count = refl;
    same_quiesced = refl;
  }
  close_from-IsSection ready (some b) es eo h = record {
    phased = ((refl, refl), h.1);
    same_count = refl;
    same_quiesced = refl;
  }
  close_from-IsSection error none es eo h = record {
    phased = (refl, h.1);
    same_count = refl;
    same_quiesced = refl;
  }
  close_from-IsSection error (some b) es eo h = record {
    phased = ((refl, refl), h.1);
    same_count = refl;
    same_quiesced = refl;
  }
  close_from-IsSection unloaded none es eo h = record {
    phased = (refl, h.1);
    same_count = refl;
    same_quiesced = refl;
  }
  close_from-IsSection unloaded (some b) es eo h = record {
    phased = ((refl, refl), h.1);
    same_count = refl;
    same_quiesced = refl;
  }
  close_from-IsSection loading o es eo h = ground (arith, h.0)
  close_from-IsSection switching o es eo h = ground (arith, h.0)
  close_from-IsSection unloading o es eo h = ground (arith, h.0)

-- The bundle's close did not end the runtime: it stays the manager's.
pub unresolved-IsSection :
    (g : Goal) (b : ActiveModelBundle) (m : Manager) (runtimes leases : List ℕ)
    → IsClosing g b m.state m.bundle
    → runtimes ≡ b.runtime ∷ []
    → IsSection m runtimes leases (after_close g b unresolved m)
unfolding after_close
unresolved-IsSection (to_switch id) b m rs ls h e = record {
  phased = (refl, rw (h.1) e);
  same_count = refl;
  same_quiesced = refl;
}
unresolved-IsSection to_unload b m rs ls h e = record {
  phased = (refl, rw (h.1) e);
  same_count = refl;
  same_quiesced = refl;
}
unresolved-IsSection to_close b m rs ls h e = record {
  phased = (rw (h.0) refl, e);
  same_count = refl;
  same_quiesced = refl;
}

-- The runtime's close ended it.
pub resolved-IsSection :
    (g : Goal) (b : ActiveModelBundle) (failed : Bool) (m : Manager) (leases : List ℕ)
    → IsClosing g b m.state m.bundle
    → IsSection m [] leases (after_close g b (bundle_close failed false) m)
unfolding after_close bundle_close
resolved-IsSection (to_switch id) b true m ls h = record {
  phased = (refl, refl);
  same_count = refl;
  same_quiesced = refl;
}
resolved-IsSection (to_switch id) b false m ls h = record {
  phased = (rw (h.0) refl, refl);
  same_count = refl;
  same_quiesced = refl;
}
resolved-IsSection to_unload b true m ls h = record {
  phased = (refl, refl);
  same_count = refl;
  same_quiesced = refl;
}
resolved-IsSection to_unload b false m ls h = record {
  phased = (refl, refl);
  same_count = refl;
  same_quiesced = refl;
}
resolved-IsSection to_close b true m ls h = record {
  phased = (rw (h.0) refl, rw (h.1) refl);
  same_count = refl;
  same_quiesced = refl;
}
resolved-IsSection to_close b false m ls h = record {
  phased = (rw (h.0) refl, rw (h.1) refl);
  same_count = refl;
  same_quiesced = refl;
}
