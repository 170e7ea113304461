-- ===== src/UserTracker/Tests.antt =====
-- Snapshots of users and groups.
use pkgundo.Prelude.{split_on, starts_with, Text, lit, text_eq, true, List, [], ◌∷◌, ◌≡◌, refl}
use pkgundo.UserTracker.{
  name_of, first_piece, is_entry, UserGroupSnapshot, diff_snapshots, has_line,
}
use pkgundo.UserTracker.Diff.{adds_user, diff_snapshots-adds_user}

abbrev snapshot : List Text → UserGroupSnapshot
snapshot users = record { passwd_lines = users; group_lines = [] }

-- The user was there before: only the shell differs.
diff_snapshots-adds_user_example :
    adds_user (name_of (lit "git:x:9:9::/:/bin/sh")) (
      diff_snapshots 1
        (lit "2024-01-01T00:00:00+00:00")
        (snapshot (lit "git:x:9:9::/:/bin/false" ∷ []))
        (snapshot (lit "git:x:9:9::/:/bin/sh" ∷ [])))
    ≡ true
unfolding has_line text_eq lit name_of first_piece is_entry split_on starts_with
diff_snapshots-adds_user_example =
    diff_snapshots-adds_user 1 (lit "2024-01-01T00:00:00+00:00") (lit "git:x:9:9::/:/bin/sh")
      (snapshot (lit "git:x:9:9::/:/bin/false" ∷ [])) (snapshot (lit "git:x:9:9::/:/bin/sh" ∷ []))
      refl refl refl
