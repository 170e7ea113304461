-- ===== src/Capture/Launches.antt =====
-- Starting and stopping launches: the group runs while there is one.
pub mod Refines
use pkgundo.Prelude.{
  Text, Bool, Bool-cases, true, false, ℕ, zero, suc, ◌+◌, ◌-◌, ◌<◌, List, [], ◌∷◌, Option,
  Option-cases, none, some, Result, Result-cases, ok, err, if◌then◌else◌, if-post, ◌==◌, ==_iff,
  All, ◌↔◌, ◌⊎◌, ◌≡◌, ◌≢◌, refl, sym, ◌∙◌, ap, subst, arith, inl, inr,
}
use pkgundo.Maps.{Map, lookup, put, without, lookup-put, lookup-without}
use pkgundo.Kernel.{Kernel}
use pkgundo.Run.{pure, ◌>>=◌, ◌>>◌}
use pkgundo.Run.Rules.{bind-via, bind-ok}
use pkgundo.BtrfsMount.{resolve}
use pkgundo.Monitor.{FanotifyMonitor, try_new, mark_filesystem}
use pkgundo.Capture.{
  same_dev, Counts, count_of, references, bump, release_by, release, MutationCapture, on_mounts,
  on_kernel, dev_of, set_group, ensure_by, ensure_group, bump_dev, arm_if, start_on, start, disarm,
  close_group, end_if_idle, stop_on, stop_by, stop_dev, stop,
}
use pkgundo.Capture.Counts.{
  IsPositive, Spec, spec_of, spec_start, spec_stop, bump_lem, release_lem, bump-IsPositive,
  bump-ne-nil, release-IsPositive,
}

module _ {k : Kernel} where
  -- The counts are positive, and the group runs if and only if there is a count.
  abbrev pub IsCounted : MutationCapture k → Type 0
  IsCounted s = IsPositive s.refcounts × ((s.group ≡ none) ↔ (s.refcounts ≡ []))

  -- The counts and the group are the same.
  abbrev pub IsAlike : MutationCapture k → MutationCapture k → Type 0
  IsAlike s t = (s.refcounts ≡ t.refcounts) × (s.group ≡ t.group)

  abbrev IsEnsured : MutationCapture k → Result ℕ × MutationCapture k → Type 0
  IsEnsured s (ok fd, t) = (t.refcounts ≡ s.refcounts) × (t.group ≡ some fd)
  IsEnsured s (err e, t) = IsAlike t s

  -- The launch is counted, or it failed before and nothing is different.
  abbrev pub IsStarted : MutationCapture k → ℕ → Result (Unit {0}) × MutationCapture k → Type 0
  IsStarted s dev (r, t) =
      (((e : Text) × (r ≡ err e)) × IsAlike t s)
      ⊎ ((t.refcounts ≡ (bump s.refcounts dev).1) × (t.group ≢ none))

module _ (k : Kernel) where
  ensure_by-IsEnsured :
      (s : MutationCapture k) (group : Option ℕ)
      → s.group ≡ group
      → IsEnsured s (ensure_by k group s)
  unfolding ensure_by set_group
  ensure_by-IsEnsured s (some fd) h = (refl, h)
  ensure_by-IsEnsured s none h =
      bind-via (λ (r : Result FanotifyMonitor × MutationCapture k). IsAlike r.1 s) (IsEnsured s)
        (on_kernel (try_new k 0)) (λ m. set_group k (some m.fanotify_fd) >> pure m.fanotify_fd) s
        (refl, refl) (λ m t alike. (alike.0, refl)) (λ e t alike. alike)

  arm_if-IsStarted :
      (fd : ℕ) (path : Text) (dev : ℕ) (first : Bool) (s t : MutationCapture k)
      → t.refcounts ≡ (bump s.refcounts dev).1
      → t.group ≡ some fd
      → IsStarted s dev (arm_if k fd path first t)
  unfolding arm_if
  arm_if-IsStarted fd path dev false s t counted runs = inr (counted, λ h. cc)
  arm_if-IsStarted fd path dev true s t counted runs = inr (counted, λ h. cc)

  start_on-IsStarted :
      (path : Text) (dev : ℕ) (s : MutationCapture k) → IsStarted s dev (start_on k path dev s)
  unfolding start_on ensure_group bump_dev
  start_on-IsStarted path dev s =
      bind-via (IsEnsured s) (IsStarted s dev) (ensure_group k)
        (λ fd. bump_dev k dev >>= λ first. arm_if k fd path first) s
        (ensure_by-IsEnsured s s.group refl)
        (λ fd t (same, runs).
          arm_if-IsStarted fd path dev (bump t.refcounts dev).0 s
            (record t { refcounts = (bump t.refcounts dev).1 }) (ap (λ c. (bump c dev).1) same)
            runs)
        (λ e t alike. inl ((e, refl), alike))

  -- What a launch is counted on: the file system of the path that its home is watched at.
  abbrev pub Resolves : MutationCapture k → Text → Text → ℕ → Type 0
  Resolves s home path dev =
      ((resolve k home s.btrfs_mounts).0 ≡ ok path)
      × (k.dev (resolve k home s.btrfs_mounts).1.kernel path ≡ ok dev)

  IsAlike-IsCounted : (s t : MutationCapture k) → IsAlike t s → IsCounted s → IsCounted t
  IsAlike-IsCounted s t (same, runs) counted = rw (same, runs) counted

  IsStarted-IsCounted :
      (s : MutationCapture k) (dev : ℕ) (r : Result (Unit {0})) (t : MutationCapture k)
      → IsCounted s
      → IsStarted s dev (r, t)
      → IsCounted t
  IsStarted-IsCounted s dev r t counted (inl (failed, alike)) = IsAlike-IsCounted s t alike counted
  IsStarted-IsCounted s dev r t counted (inr (bumped, runs)) = (
    rw bumped (bump-IsPositive s.refcounts dev counted.0),
    (
      λ idle. absurd (runs idle),
      λ empty. absurd (bump-ne-nil s.refcounts dev (sym bumped ∙ empty)),
    ),
  )

  after_resolve : Text → MutationCapture k → MutationCapture k
  after_resolve home s = record s { btrfs_mounts = (resolve k home s.btrfs_mounts).1 }

  start-IsCounted :
      (home : Text) (s : MutationCapture k) → IsCounted s → IsCounted (start k home s).1
  unfolding start dev_of
  start-IsCounted home s counted =
      bind-via (λ (r : Result Text × MutationCapture k). IsCounted r.1)
        (λ (r : Result (Unit {0}) × MutationCapture k). IsCounted r.1) (on_mounts (resolve k home))
        (λ path. dev_of k path >>= λ dev. start_on k path dev) s counted
        (λ path t at.
          bind-via (λ (r : Result ℕ × MutationCapture k). IsCounted r.1)
            (λ (r : Result (Unit {0}) × MutationCapture k). IsCounted r.1) (dev_of k path)
            (λ dev. start_on k path dev) t at
            (λ dev u there.
              IsStarted-IsCounted u dev (start_on k path dev u).0 (start_on k path dev u).1 there
                (start_on-IsStarted path dev u))
            (λ e u there. there))
        (λ e t at. at)

  start-eq-start_on :
      (home path : Text) (dev : ℕ) (s : MutationCapture k)
      → Resolves s home path dev
      → start k home s ≡ start_on k path dev (after_resolve home s)
  unfolding start dev_of after_resolve
  start-eq-start_on home path dev s (resolved, there) =
      bind-ok (on_mounts (resolve k home)) (λ path. dev_of k path >>= λ dev. start_on k path dev) s
        path resolved
      ∙ bind-ok (dev_of k path) (λ dev. start_on k path dev) (after_resolve home s) dev there

  stop-eq-stop_on :
      (home path : Text) (dev : ℕ) (s : MutationCapture k)
      → Resolves s home path dev
      → stop k home s ≡ stop_on k path dev (after_resolve home s)
  unfolding stop stop_by after_resolve
  stop-eq-stop_on home path dev s (resolved, there) =
      ap (λ r. stop_by k r (after_resolve home s)) resolved
      ∙ ap (λ r. stop_dev k path r (after_resolve home s)) there

  disarm-IsAlike :
      (path : Text) (group : Option ℕ) (s : MutationCapture k) → IsAlike (disarm k path group s) s
  unfolding disarm
  disarm-IsAlike path none s = (refl, refl)
  disarm-IsAlike path (some fd) s = (refl, refl)

  disarm_if-IsAlike :
      (path : Text) (last : Bool) (group : Option ℕ) (s : MutationCapture k)
      → IsAlike (if last then disarm k path group s else s) s
  disarm_if-IsAlike path last group s =
      if-post (λ t. IsAlike t s) last (λ _. disarm-IsAlike path group s) (λ _. (refl, refl))

  close_group-lem :
      (group : Option ℕ) (s : MutationCapture k)
      → s.group ≡ group
      → ((close_group k group s).refcounts ≡ s.refcounts) × ((close_group k group s).group ≡ none)
  unfolding close_group
  close_group-lem none s h = (refl, h)
  close_group-lem (some fd) s h = (refl, refl)

  end_if_idle-IsCounted :
      (counts : Counts) (s : MutationCapture k)
      → s.refcounts ≡ counts
      → IsPositive counts
      → (counts ≢ [] → s.group ≢ none)
      → IsCounted (end_if_idle k counts s)
  unfolding end_if_idle
  end_if_idle-IsCounted [] s h positive runs =
      let (same, ended) = close_group-lem s.group s refl in
      (rw (same, h) tt, (λ _. same ∙ h, λ _. ended))
  end_if_idle-IsCounted (c ∷ cs) s h positive runs =
      (rw h positive, (λ idle. absurd (runs (λ e. cc) idle), λ empty. absurd (cc (sym h ∙ empty))))

  release-ne-nil : (c : Counts) (dev : ℕ) → (release c dev).1 ≢ [] → c ≢ []
  unfolding release release_by lookup
  release-ne-nil [] dev h e = h refl
  release-ne-nil (_ ∷ _) dev h e = cc

  stop_on-IsCounted :
      (path : Text) (dev : ℕ) (s : MutationCapture k)
      → IsCounted s
      → IsCounted (stop_on k path dev s)
  unfolding stop_on
  stop_on-IsCounted path dev s (positive, runs) =
      let (last, counts) = release s.refcounts dev in
      let released = record s { refcounts = counts } in
      let (same, alive) = disarm_if-IsAlike path last s.group released in
      end_if_idle-IsCounted counts (if last then disarm k path s.group released else released) same
        (release-IsPositive s.refcounts dev positive)
        (λ some_left idle. release-ne-nil s.refcounts dev some_left (runs.0 (sym alive ∙ idle)))

  stop_dev-IsCounted :
      (path : Text) (dev : Result ℕ) (s : MutationCapture k)
      → IsCounted s
      → IsCounted (stop_dev k path dev s)
  unfolding stop_dev
  stop_dev-IsCounted path (err e) s counted = counted
  stop_dev-IsCounted path (ok dev) s counted = stop_on-IsCounted path dev s counted

  stop_by-IsCounted :
      (path : Result Text) (s : MutationCapture k) → IsCounted s → IsCounted (stop_by k path s)
  unfolding stop_by
  stop_by-IsCounted (err e) s counted = counted
  stop_by-IsCounted (ok path) s counted =
      stop_dev-IsCounted path (k.dev s.btrfs_mounts.kernel path) s counted

  -- Starting and stopping a launch, whatever fails in it, keeps every listed file system's count
  -- positive, and the capture group running if and only if a file system is listed.
  pub start-stop-IsCounted :
      (home : Text) (s : MutationCapture k)
      → IsCounted s
      → IsCounted (start k home s).1 × IsCounted (stop k home s)
  unfolding stop after_resolve
  start-stop-IsCounted home s counted = (
    start-IsCounted home s counted,
    stop_by-IsCounted (resolve k home s.btrfs_mounts).0 (after_resolve home s) counted,
  )
