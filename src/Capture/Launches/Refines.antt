-- ===== src/Capture/Launches/Refines.antt =====
-- The counts refine the number of launches on each file system.
use pkgundo.Prelude.{Text, ℕ, [], ◌∷◌, Result, ok, if◌then◌else◌, ◌≡◌, refl, sym, ◌∙◌, ap, inl, inr}
use pkgundo.Kernel.{Kernel}
use pkgundo.Capture.{
  Counts, references, release, MutationCapture, start_on, start, disarm, end_if_idle, stop_on, stop,
}
use pkgundo.Capture.Counts.{spec_of, spec_start, spec_stop, bump_lem, release_lem}
use pkgundo.Capture.Launches.{
  IsStarted, Resolves, start_on-IsStarted, after_resolve, start-eq-start_on, stop-eq-stop_on,
  close_group-lem, disarm_if-IsAlike,
}

module _ (k : Kernel) where
  counted_ok :
      (s : MutationCapture k) (dev d : ℕ) (u : Unit {0}) (r : Result (Unit {0}))
      (t : MutationCapture k)
      → r ≡ ok u
      → IsStarted s dev (r, t)
      → spec_of t.refcounts d ≡ spec_start dev (spec_of s.refcounts) d
  counted_ok s dev d u r t h (inl ((e, failed), alike)) = absurd (cc (sym h ∙ failed))
  counted_ok s dev d u r t h (inr (bumped, runs)) =
      ap (references d) bumped ∙ bump_lem s.refcounts dev d

  end_if_idle-refcounts :
      (counts : Counts) (s : MutationCapture k) → (end_if_idle k counts s).refcounts ≡ s.refcounts
  unfolding end_if_idle
  end_if_idle-refcounts [] s = (close_group-lem k s.group s refl).0
  end_if_idle-refcounts (c ∷ cs) s = refl

  stop_on-refcounts :
      (path : Text) (dev : ℕ) (s : MutationCapture k)
      → (stop_on k path dev s).refcounts ≡ (release s.refcounts dev).1
  unfolding stop_on
  stop_on-refcounts path dev s =
      let (last, counts) = release s.refcounts dev in
      let released = record s { refcounts = counts } in
      end_if_idle-refcounts counts (if last then disarm k path s.group released else released)
      ∙ (disarm_if-IsAlike k path last s.group released).0

  -- The counts refine the number of launches on each file system: for a home that is watched on
  -- the file system `dev`, a start that succeeds adds one launch to `dev` and none elsewhere, and a
  -- stop takes one from it, if it has one, and none elsewhere.
  pub start-stop-refines :
      (home path : Text) (dev : ℕ) (s : MutationCapture k) (u : Unit {0})
      → Resolves k s home path dev
      → ((start k home s).0 ≡ ok u
          → (d : ℕ)
          → spec_of (start k home s).1.refcounts d ≡ spec_start dev (spec_of s.refcounts) d)
        × ((d : ℕ) → spec_of (stop k home s).refcounts d ≡ spec_stop dev (spec_of s.refcounts) d)
  unfolding after_resolve
  start-stop-refines home path dev s u at = (
    λ done d.
        let same = start-eq-start_on k home path dev s at in
        let t = after_resolve k home s in
        ap (λ r. spec_of r.1.refcounts d) same
        ∙ counted_ok t dev d u (start_on k path dev t).0 (start_on k path dev t).1
            (ap (λ r. r.0) (sym same) ∙ done) (start_on-IsStarted k path dev t),
    λ d.
        let t = after_resolve k home s in
        ap (λ r. spec_of r.refcounts d) (stop-eq-stop_on k home path dev s at)
        ∙ (ap (references d) (stop_on-refcounts path dev t) ∙ release_lem s.refcounts dev d),
  )
