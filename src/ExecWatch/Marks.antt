-- ===== src/ExecWatch/Marks.antt =====
-- An app that is not watched any more has no executable that is.
use pkgundo.Prelude.{Text, text_eq, true, false, List, [], ◌∷◌, map, any, if-post, ◌≡◌, arith, All}
use pkgundo.Maps.{without}
use pkgundo.Kernel.{Kernel}
use pkgundo.Paths.{PathBuf, path_eq, to_text}
use pkgundo.Paths.Laws.{path_eq_refl}
use pkgundo.ExecWatch.{ExecWatch, WatchedApp, Watched, mark, unwatch_all, paths_named, unwatch_app}

module _ (name : Text) where
  -- The executables of the app are among the paths.
  abbrev AreAmong : List PathBuf → Watched → Type 0
  AreAmong paths watched =
      All
        (λ (e : PathBuf × WatchedApp).
          text_eq e.1.name name ≡ true → any (path_eq e.0) paths ≡ true)
        watched

  AreAmong-more :
      (p : PathBuf) (paths : List PathBuf) (watched : Watched)
      → AreAmong paths watched
      → AreAmong (p ∷ paths) watched
  AreAmong-more p paths [] among = tt
  AreAmong-more p paths ((q, app) ∷ watched) (here, among) =
      (λ named. ground (arith, here named), AreAmong-more p paths watched among)

  paths_named-AreAmong : (watched : Watched) → AreAmong (paths_named name watched) watched
  unfolding paths_named
  paths_named-AreAmong [] = tt
  paths_named-AreAmong ((p, app) ∷ watched) =
      if-post (λ (es : Watched). AreAmong (map (λ e. e.0) es) ((p, app) ∷ watched))
        (text_eq app.name name)
        (λ named. (
          λ _. ground (arith, path_eq_refl p),
          AreAmong-more p (paths_named name watched) watched (paths_named-AreAmong watched),
        ))
        (λ other. (λ named. absurd (cc (named, other)), paths_named-AreAmong watched))

  without-AreAmong :
      (p : PathBuf) (paths : List PathBuf) (watched : Watched)
      → AreAmong (p ∷ paths) watched
      → AreAmong paths (without path_eq p watched)
  unfolding without
  without-AreAmong p paths [] among = tt
  without-AreAmong p paths ((q, app) ∷ watched) (here, among) =
      if-post (AreAmong paths) (path_eq q p) (λ gone. without-AreAmong p paths watched among)
        (λ stays. (λ named. ground (arith, here named), without-AreAmong p paths watched among))

  -- No executable is watched for the app.
  abbrev pub IsUnwatched : Watched → Type 0
  IsUnwatched watched = All (λ (e : PathBuf × WatchedApp). text_eq e.1.name name ≡ false) watched

  AreAmong-IsUnwatched : (watched : Watched) → AreAmong [] watched → IsUnwatched watched
  AreAmong-IsUnwatched [] among = tt
  AreAmong-IsUnwatched ((p, app) ∷ watched) (here, among) =
      (ground (arith, here), AreAmong-IsUnwatched watched among)

  unwatch_all-IsUnwatched :
      (k : Kernel) (paths : List PathBuf) (s : ExecWatch k)
      → AreAmong paths s.watched
      → IsUnwatched (unwatch_all k paths s).watched
  unfolding unwatch_all mark
  unwatch_all-IsUnwatched k [] s among = AreAmong-IsUnwatched s.watched among
  unwatch_all-IsUnwatched k (p ∷ paths) s among =
      let s' = (mark k (to_text p) false s).1 in
      unwatch_all-IsUnwatched k paths (record s' { watched = without path_eq p s'.watched })
        (without-AreAmong p paths s.watched among)

-- After an app is given up, no executable is watched for it, whatever marks could not be removed.
pub unwatch_app-IsUnwatched :
    (k : Kernel) (name : Text) (s : ExecWatch k) → IsUnwatched name (unwatch_app k name s).watched
unfolding unwatch_app
unwatch_app-IsUnwatched k name s =
    unwatch_all-IsUnwatched name k (paths_named name s.watched) s
      (paths_named-AreAmong name s.watched)
